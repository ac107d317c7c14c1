-- ===== src/Evaluate/Paths.antt =====
-- When the body assertions of evaluateAssertions (runner/http/runner.go, runner/grpc/runner.go) report
-- nothing: what they ask of the parsed response.
use ojs_conformance.Common.{
  Text, text, true, false, List, [], ◌∷◌, Option, none, some, ◌≡◌, ◌↔◌, ◌⊎◌, inl, inr, refl, sym,
  subst, arith, All, ++-nil_iff, Bool-cases, Option-cases, ◌>>=◌,
}
use ojs_conformance.Json.{Runtime, Value, Entries, Raw}
use ojs_conformance.Json.Unmarshal.{get_field, unmarshal_array}
use ojs_conformance.JsonPath.{resolve_json_path, Resolved, ok, err}
use ojs_conformance.Assertions.{Mismatch, Verdict, pass, fail, passes}
use ojs_conformance.Assertions.Match.{match_assertion, wants_absent}
use ojs_conformance.Schema.{StepResult}
use ojs_conformance.Runner.{Stored}
use ojs_conformance.Evaluate.{Codec, parsed_value}
use ojs_conformance.Evaluate.Templates.{resolve_templates, resolve_matcher_templates}
use ojs_conformance.Evaluate.Body.{
  some_alternative, or_failures, is_operator, path_failures, paths_failures, body_failures,
  is_found, body_absent_failures,
}
use ojs_conformance.Evaluate.Expectations.{Each, failing_iff, failing-found_iff}

Verdict-cases : (v : Verdict) → (v ≡ pass) ⊎ ((e : Mismatch) × (v ≡ fail e))
Verdict-cases pass = inl refl
Verdict-cases (fail e) = inr (e, refl)

module _ {Num : Type 0} (R : Runtime Num) (C : Codec Num) where
  -- What stands at a path is what the matcher wants; a path that leads nowhere is `absent`.
  abbrev pub Accepts : Raw Num → Resolved Num → Type 0
  Accepts matcher (err e) = wants_absent matcher ≡ true
  Accepts matcher (ok v) = passes (match_assertion R matcher v) ≡ true

  path_failures_iff :
      (id path : Text) (matcher : Raw Num) (r : Resolved Num)
      → (path_failures R C id path matcher r ≡ []) ↔ Accepts matcher r
  unfolding path_failures
  path_failures_iff id path matcher (err e) = failing_iff (wants_absent matcher) _
  path_failures_iff id path matcher (ok v) = elim (Verdict-cases (match_assertion R matcher v)) [
    | inl e ↦ rw (e, path_failures) ((λ x. refl), (λ x. refl))
    | inr (m, e) ↦
        rw (e, path_failures) ((λ x. absurd (ground arith)), (λ x. absurd (ground arith)))
  ]

  -- An entry of the body: a path, with the templates replaced, or an operator, which is passed over: a
  -- key that begins with `$` but not with `$.`.
  abbrev pub PathMeets : Stored Num → Value Num → Text × Raw Num → Type 0
  PathMeets stored parsed (path, matcher) =
      (is_operator path ≡ true)
      ⊎ Accepts (resolve_matcher_templates R C matcher stored)
          (resolve_json_path R (resolve_templates R C path stored) parsed)

  paths_failures_iff :
      (stored : Stored Num) (id : Text) (parsed : Value Num) (body : List (Text × Raw Num))
      → (paths_failures R C stored id parsed body ≡ []) ↔ All (PathMeets stored parsed) body
  unfolding paths_failures
  paths_failures_iff stored id parsed [] = ((λ e. tt), (λ t. refl))
  paths_failures_iff stored id parsed ((path, matcher) ∷ body) =
      let later = paths_failures_iff stored id parsed body in
      let both =
        ++-nil_iff
          (path_failures_iff id path (resolve_matcher_templates R C matcher stored)
            (resolve_json_path R (resolve_templates R C path stored) parsed))
          later in
      elim (Bool-cases (is_operator path)) [
        | inl e ↦ rw (e, paths_failures) ((λ x. (inl refl, later.0 x)), (λ (a, b). later.1 b))
        | inr e ↦
            rw (e, paths_failures)
              (
                (λ x. (inr ((both.0 x).0), (both.0 x).1)),
                (λ (a, b). both.1 (elim a [ inl q ↦ absurd (ground arith) | inr q ↦ q ], b)),
              )
      ]

  -- The alternatives of `$or` that are looked at.
  abbrev pub alternatives_of : List (Text × Raw Num) → Option (List (Raw Num))
  alternatives_of body = do or_raw ← get_field (text "$or") body; unmarshal_array or_raw

  or_failures_iff :
      (stored : Stored Num) (id : Text) (parsed : Value Num) (body : List (Text × Raw Num))
      → (or_failures R C stored id parsed body ≡ [])
        ↔ Each (λ alts. some_alternative R C stored parsed alts ≡ true) (alternatives_of body)
  unfolding or_failures
  or_failures_iff stored id parsed body = elim (Option-cases (get_field (text "$or") body)) [
    | inl e ↦ rw (e, or_failures) ((λ x. tt), (λ x. refl))
    | inr (raw, e) ↦ elim (Option-cases (unmarshal_array raw)) [
      | inl f ↦ rw (e, f, or_failures) ((λ x. tt), (λ x. refl))
      | inr (alts, f) ↦
          rw (e, f, or_failures) (failing_iff (some_alternative R C stored parsed alts) _)
    ]
  ]

  -- Some alternative of `$or` holds, and either the response was no object, when the entries of the body
  -- are not looked at, or they are met.
  abbrev pub BodyMeets : Stored Num → StepResult Num → List (Text × Raw Num) → Type 0
  BodyMeets stored sr body =
      Each (λ alts. some_alternative R C stored (parsed_value sr) alts ≡ true)
        (alternatives_of body)
      × ((sr.parsed ≡ none)
          ⊎ ((es : Entries Num) × (sr.parsed ≡ some es)
              × All (PathMeets stored (Value.object es)) body))

  abbrev entries_or : Entries Num → Option (Entries Num) → Entries Num
  entries_or es none = es
  entries_or es (some es') = es'

  pub body_failures_iff :
      (stored : Stored Num) (id : Text) (sr : StepResult Num)
      → (o : Option (List (Text × Raw Num)))
      → (body_failures R C stored id sr o ≡ []) ↔ Each (BodyMeets stored sr) o
  unfolding body_failures
  body_failures_iff stored id sr none = ((λ e. tt), (λ t. refl))
  body_failures_iff stored id sr (some body) =
      let first = or_failures_iff stored id (parsed_value sr) body in
      ++-nil_iff first (elim (Option-cases sr.parsed) [
        | inl e ↦ rw e ((λ x. inl refl), (λ x. refl))
        | inr (es, e) ↦
            let i = paths_failures_iff stored id (Value.object es) body in
            rw (e, body_failures)
              (
                (λ x. inr (es, refl, i.0 x)),
                elim [
                  | inl q ↦ absurd (ground arith)
                  | inr (es', q, h) ↦ i.1 (
                      subst (λ o. All (PathMeets stored (Value.object (entries_or es o))) body)
                        (sym q) h)
                ],
              )
      ])

  pub body_absent_failures_iff :
      (id : Text) (parsed : Value Num) (paths : List Text)
      → (body_absent_failures R C id parsed paths ≡ [])
        ↔ All (λ p. is_found (resolve_json_path R p parsed) ≡ false) paths
  unfolding body_absent_failures
  body_absent_failures_iff id parsed [] = ((λ e. tt), (λ t. refl))
  body_absent_failures_iff id parsed (p ∷ paths) =
      ++-nil_iff (failing-found_iff (is_found (resolve_json_path R p parsed)) _)
        (body_absent_failures_iff id parsed paths)
