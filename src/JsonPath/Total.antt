-- ===== src/JsonPath/Total.antt =====
-- ResolveJSONPath terminates: the path gets shorter with every recursive call.
use ojs_conformance.Common.{
  ℕ, zero, suc, ◌+◌, ◌≤◌, ◌<◌, Text, text, List, [], ◌∷◌, ◌≡◌, refl, ◌∙◌, ap, arith, length,
  has_prefix, cut, str_eq, atoi, drop, ◌==◌, Bool-cases, Option-cases, inl, inr, if◌then◌else◌,
  trim_prefix,
}
use ojs_conformance.Json.{Runtime, Value}
use ojs_conformance.JsonPath.{
  Resolved, Outcome, next, return, ok, finish, and_next, as_array, to_values, collect, keep_found,
  wildcard, remaining_path, at_position, brackets, after_filter, filter_part, find_match,
  trim_quotes, enter_field, visit, visit_all, split_json_path, resolve_with, resolve_fuel,
  resolve_json_path,
}
use ojs_conformance.JsonPath.Brackets.{step-Agree}
use ojs_conformance.JsonPath.Lengths.{
  weight, length-cut, length-remaining_path, length-trim_prefix, weight-split_json_path,
}

module _ {Num : Type 0} where
  finish-Agree :
      (o : Outcome Num) (f g : Value Num → Resolved Num)
      → ((v : Value Num) → f v ≡ g v)
      → finish o f ≡ finish o g
  finish-Agree (next v) f g h = h v
  finish-Agree (return r) f g h = refl

  and_next-Agree :
      (o : Outcome Num) (f g : Value Num → Outcome Num)
      → ((v : Value Num) → f v ≡ g v)
      → and_next o f ≡ and_next o g
  and_next-Agree (next v) f g h = h v
  and_next-Agree (return r) f g h = refl

  keep_found-Agree :
      (a b : Resolved Num) (xs ys : List (Value Num))
      → a ≡ b
      → xs ≡ ys
      → keep_found a xs ≡ keep_found b ys
  keep_found-Agree a b xs ys e e' = ap (λ r. keep_found r xs) e ∙ ap (keep_found b) e'

  module _ (r q : Text → Value Num → Resolved Num) where
    -- Two resolvers that do the same on paths shorter than `n`.
    abbrev Agree : ℕ → Type 0
    Agree n = (p : Text) (v : Value Num) → length p < n → r p v ≡ q p v

    Agree-mono : (m n : ℕ) → m ≤ n → Agree n → Agree m
    Agree-mono m n le h p v lt = h p v (omega arith)

    collect-Agree :
        (path : Text) (vs : List (Value Num))
        → ((v : Value Num) → r path v ≡ q path v)
        → collect r path vs ≡ collect q path vs
    unfolding collect
    collect-Agree [] vs h = refl
    collect-Agree (c ∷ cs) [] h = refl
    collect-Agree (c ∷ cs) (v ∷ vs) h =
        keep_found-Agree (r (c ∷ cs) v) (q (c ∷ cs) v) (collect r (c ∷ cs) vs)
          (collect q (c ∷ cs) vs) (h v) (collect-Agree (c ∷ cs) vs h)

    wildcard-Agree :
        (rest : Text) (later : List Text) (v : Value Num)
        → Agree (suc (length rest + weight later))
        → wildcard r rest later v ≡ wildcard q rest later v
    unfolding wildcard
    wildcard-Agree rest later v h =
        let short = length-remaining_path rest later in
        elim (Option-cases (as_array v)) [
          | inl e ↦ rw (e, wildcard) refl
          | inr (arr, e) ↦
              rw (e, wildcard)
                (ap (λ vs. ok (Value.array (to_values vs)))
                  (collect-Agree (remaining_path rest later) arr
                    (λ w. h (remaining_path rest later) w (omega arith))))
        ]

    brackets-Agree :
        (later : List Text) (fuel : ℕ) (rest : Text) (v : Value Num)
        → Agree (length rest + weight later)
        → brackets r later fuel rest v ≡ brackets q later fuel rest v
    unfolding brackets
    brackets-Agree later fuel [] v h = refl
    brackets-Agree later zero (c ∷ cs) v h = refl
    brackets-Agree later (suc fuel) (c ∷ cs) v h = elim (Bool-cases (c == b'[')) [
      | inr e ↦ rw (e, brackets) refl
      | inl e ↦ elim (Option-cases (cut (text "]") cs)) [
        | inl k ↦ rw (e, k, brackets) refl
        | inr (g, k) ↦
            let parts = length-cut (text "]") cs g k in
            elim (Bool-cases (str_eq g.0 (text "*"))) [
              | inl s ↦
                  rw (e, k, s, brackets)
                    (ap return (
                      wildcard-Agree g.1 later v (
                        Agree-mono (suc (length g.1 + weight later))
                          (length (c ∷ cs) + weight later) (omega arith) h)))
              | inr s ↦ elim (Option-cases (atoi g.0)) [
                | inl a ↦ rw (e, k, s, a, brackets) refl
                | inr (z, a) ↦
                    rw (e, k, s, a, brackets)
                      (step-Agree (at_position z v) (brackets r later fuel g.1)
                        (brackets q later fuel g.1)
                        (λ w. brackets-Agree later fuel g.1 w (
                          Agree-mono (length g.1 + weight later) (length (c ∷ cs) + weight later)
                            (omega arith) h)))
              ]
            ]
      ]
    ]

    after_filter-Agree :
        (R : Runtime Num) (rest : Text) (v : Value Num)
        → Agree (length rest)
        → after_filter R r rest v ≡ after_filter R q rest v
    unfolding after_filter
    after_filter-Agree R [] v h = refl
    after_filter-Agree R (c ∷ cs) Value.null h = refl
    after_filter-Agree R (c ∷ cs) v h =
        let same : r cs v ≡ q cs v = h cs v (omega arith) in
        ap (λ x. if c == b'.' then return x else next v) same

    module _ (R : Runtime Num) where
      filter_part-Agree :
          (rest : Text) (v : Value Num)
          → Agree (length rest)
          → filter_part R r rest v ≡ filter_part R q rest v
      unfolding filter_part
      filter_part-Agree rest v h = elim (Option-cases (cut (text ")]") rest)) [
        | inl e ↦ rw (e, filter_part) refl
        | inr (g, e) ↦
            let parts = length-cut (text ")]") rest g e in
            elim (Option-cases (cut (text "==") (drop 5 g.0))) [
              | inl k ↦ rw (e, k, filter_part) refl
              | inr (kv, k) ↦ elim (Option-cases (as_array v)) [
                | inl a ↦ rw (e, k, a, filter_part) refl
                | inr (arr, a) ↦
                    rw (e, k, a, filter_part)
                      (after_filter-Agree R g.1 (find_match R kv.0 (trim_quotes kv.1) arr)
                        (Agree-mono (length g.1) (length rest) (omega arith) h))
              ]
            ]
      ]

      visit-Agree :
          (part : Text) (later : List Text) (v : Value Num)
          → Agree (length part + weight later)
          → visit R r part later v ≡ visit R q part later v
      unfolding visit
      visit-Agree [] later v h = refl
      visit-Agree (c ∷ cs) later v h = elim (Option-cases (cut (text "[") (c ∷ cs))) [
        | inl e ↦ rw (e, visit) refl
        | inr (g, e) ↦
            let parts = length-cut (text "[") (c ∷ cs) g e in
            let rest = b'[' ∷ g.1 in
            rw (e, visit)
              (and_next-Agree (enter_field g.0 v)
                (λ w.
                  if has_prefix rest (text "[?(@.")
                  then filter_part R r rest w
                  else brackets r later (length rest) rest w)
                (λ w.
                  if has_prefix rest (text "[?(@.")
                  then filter_part R q rest w
                  else brackets q later (length rest) rest w)
                (λ w. elim (Bool-cases (has_prefix rest (text "[?(@."))) [
                  | inl p ↦ rw p (
                      filter_part-Agree rest w
                        (Agree-mono (length rest) (length (c ∷ cs) + weight later) (omega arith) h))
                  | inr p ↦ rw p (
                      brackets-Agree later (length rest) rest w (
                        Agree-mono (length rest + weight later) (length (c ∷ cs) + weight later)
                          (omega arith) h))
                ]))
      ]

      visit_all-Agree :
          (n : ℕ) (parts : List Text) (v : Value Num)
          → weight parts ≤ suc n
          → Agree n
          → visit_all R r parts v ≡ visit_all R q parts v
      unfolding visit_all weight
      visit_all-Agree n [] v le h = refl
      visit_all-Agree n (part ∷ later) v le h =
          ap (λ o. finish o (visit_all R r later))
            (visit-Agree part later v (Agree-mono (length part + weight later) n (omega arith) h))
          ∙ finish-Agree (visit R q part later v) (visit_all R r later) (visit_all R q later)
              (λ w. visit_all-Agree n later w (omega arith) h)

      resolve_with-Agree :
          (path : Text) (v : Value Num)
          → Agree (length path)
          → resolve_with R r path v ≡ resolve_with R q path v
      unfolding resolve_with
      resolve_with-Agree path v h =
          let shorter = length-trim_prefix path (text "$.") in
          let parts = weight-split_json_path (trim_prefix path (text "$.")) in
          visit_all-Agree (length path) (split_json_path (trim_prefix path (text "$."))) v
            (omega arith) h

  module _ (R : Runtime Num) where
    resolve_fuel-enough :
        (f g : ℕ) (path : Text) (v : Value Num)
        → length path < f
        → length path < g
        → resolve_fuel R f path v ≡ resolve_fuel R g path v
    unfolding resolve_fuel
    resolve_fuel-enough zero g path v h k = absurd (omega arith)
    resolve_fuel-enough (suc f) zero path v h k = absurd (omega arith)
    resolve_fuel-enough (suc f) (suc g) path v h k =
        resolve_with-Agree (resolve_fuel R f) (resolve_fuel R g) R path v
          (λ p w s. resolve_fuel-enough f g p w (omega arith) (omega arith))

    -- The answer of ResolveJSONPath is that of its Go body, in which the recursive calls are calls of
    -- ResolveJSONPath itself.
    pub resolve_json_path-resolve_with :
        (path : Text) (v : Value Num)
        → resolve_json_path R path v ≡ resolve_with R (resolve_json_path R) path v
    unfolding resolve_json_path resolve_fuel
    resolve_json_path-resolve_with path v =
        resolve_with-Agree (resolve_fuel R (length path)) (resolve_json_path R) R path v (λ p w s.
          resolve_fuel-enough (length path) (suc (length p)) p w (omega arith) (omega arith))

    -- The Go body unrolled to a depth; a call that is deeper gets the answer of `base`.
    abbrev pub unrolled : (Text → Value Num → Resolved Num) → ℕ → Text → Value Num → Resolved Num
    unrolled base zero = base
    unrolled base (suc n) = resolve_with R (unrolled base n)
