-- ===== src/Evaluate/References.antt =====
-- What resolveTemplates and resolveMatcherTemplates (runner/http/runner.go, runner/grpc/runner.go) make of
-- references and of other text.
use ojs_conformance.Common.{
  ℕ, ◌-◌, Text, text, true, false, not, [], ◌∷◌, ◌++◌, none, some, ◌==◌, ◌≡◌, ◌≢◌, ◌∙◌, ap, sym,
  refl, arith, all, length, drop, length-drop, cut, has_prefix, contains, str_eq, str_eq_iff,
  append_assoc, &&_iff, Bool-cases, inl, inr,
}
use ojs_conformance.Json.{Runtime, Raw}
use ojs_conformance.Runner.{Stored}
use ojs_conformance.Evaluate.{Codec}
use ojs_conformance.Evaluate.Templates.{
  opening, middle, Reference, matched, reference_at, replace, replace_from, resolve_templates,
  resolve_matcher_templates, field_of, named,
}

-- The first occurrence of a character, behind text without it.
cut-first :
    (sep : ℕ) (s rest : Text)
    → all (λ c. not (c == sep)) s ≡ true
    → cut (sep ∷ []) (s ++ sep ∷ rest) ≡ some (s, rest)
unfolding cut has_prefix
cut-first sep [] rest h = ground arith
cut-first sep (c ∷ cs) rest h = ground (arith, cut-first sep cs rest)

-- The parts of a reference that the pattern can match.
pub record IsReference (r : Reference) : Type 0 where
  pub id_nonempty : r.step_id ≢ []
  pub id_plain : all (λ c. not (c == b'.')) r.step_id ≡ true
  pub path_nonempty : r.field_path ≢ []
  pub path_plain : all (λ c. not (c == b'}')) r.field_path ≡ true

field_of-matched :
    (id path rest : Text)
    → path ≢ []
    → all (λ c. not (c == b'}')) path ≡ true
    → field_of id (middle ++ (path ++ (text "}}" ++ rest)))
      ≡ some (record { step_id = id; field_path = path })
unfolding field_of
field_of-matched id [] rest nonempty plain = absurd (nonempty refl)
field_of-matched id (c ∷ cs) rest nonempty plain =
    rw (cut-first b'}' (c ∷ cs) (text "}" ++ rest) plain, field_of) refl

named-matched :
    (id path rest : Text)
    → id ≢ []
    → path ≢ []
    → all (λ c. not (c == b'}')) path ≡ true
    → named (id, middle ++ (path ++ (text "}}" ++ rest)))
      ≡ some (record { step_id = id; field_path = path })
unfolding named
named-matched [] path rest named_id nonempty plain = absurd (named_id refl)
named-matched (c ∷ cs) path rest named_id nonempty plain =
    field_of-matched (c ∷ cs) path rest nonempty plain

-- The parts of a match, with what stands behind it.
matched-append :
    (r : Reference) (rest : Text)
    → matched r ++ rest
      ≡ opening ++ (r.step_id ++ (b'.' ∷ (middle ++ (r.field_path ++ (text "}}" ++ rest)))))
matched-append r rest =
    ap (λ s. opening ++ s)
      (append_assoc r.step_id (b'.' ∷ (middle ++ (r.field_path ++ text "}}"))) rest
        ∙ ap (λ s. r.step_id ++ (b'.' ∷ (middle ++ s)))
            (append_assoc r.field_path (text "}}") rest))

-- A reference that the pattern can match is found where it stands.
reference_at-matched :
    (r : Reference) (rest : Text) → IsReference r → reference_at (matched r ++ rest) ≡ some r
unfolding reference_at
reference_at-matched r rest h =
    let behind = middle ++ (r.field_path ++ (text "}}" ++ rest)) in
    rw (matched-append r rest, cut-first b'.' r.step_id behind h.id_plain, reference_at)
      (named-matched r.step_id r.field_path rest h.id_nonempty h.path_nonempty h.path_plain)

reference_at-none : (s : Text) → has_prefix s opening ≡ false → reference_at s ≡ none
unfolding reference_at
reference_at-none s h = rw (h, reference_at) refl

no_opening : (c : ℕ) (s : Text) → not (c == b'{') ≡ true → has_prefix (c ∷ s) opening ≡ false
unfolding has_prefix
no_opening c s h = ground arith

module _ {Num : Type 0} (R : Runtime Num) (C : Codec Num) where
  replace_from-skip :
      (stored : Stored Num) (s rest : Text)
      → replace_from R C stored (length s) (s ++ rest) ≡ replace_from R C stored 0 rest
  unfolding replace_from
  replace_from-skip stored [] rest = refl
  replace_from-skip stored (c ∷ cs) rest = replace_from-skip stored cs rest

  replace_from-plain :
      (stored : Stored Num) (s rest : Text)
      → all (λ c. not (c == b'{')) s ≡ true
      → replace_from R C stored 0 (s ++ rest) ≡ s ++ replace_from R C stored 0 rest
  unfolding replace_from
  replace_from-plain stored [] rest h = refl
  replace_from-plain stored (c ∷ cs) rest h =
      let (brace, later) = (&&_iff _ _).0 h in
      rw (reference_at-none (c ∷ (cs ++ rest)) (no_opening c (cs ++ rest) brace), replace_from)
        (ap (◌∷◌ c) (replace_from-plain stored cs rest later))

  replace_from-found :
      (stored : Stored Num) (c : ℕ) (cs : Text) (r : Reference)
      → reference_at (c ∷ cs) ≡ some r
      → replace_from R C stored 0 (c ∷ cs)
        ≡ replace R C stored r ++ replace_from R C stored (length (matched r) - 1) cs
  unfolding replace_from
  replace_from-found stored c cs r found = rw (found, replace_from) refl

  replace_from-matched :
      (stored : Stored Num) (r : Reference) (rest : Text)
      → IsReference r
      → replace_from R C stored 0 (matched r ++ rest)
        ≡ replace R C stored r ++ replace_from R C stored 0 rest
  replace_from-matched stored r rest wf =
      replace_from-found stored b'{' (drop 1 (matched r) ++ rest) r (reference_at-matched r rest wf)
      ∙ ap (λ s. replace R C stored r ++ s)
          (ap (λ k. replace_from R C stored k (drop 1 (matched r) ++ rest))
              (sym (length-drop 1 (matched r)))
            ∙ replace_from-skip stored (drop 1 (matched r)) rest)

  replace_from-untouched :
      (stored : Stored Num) (s : Text)
      → contains s opening ≡ false
      → replace_from R C stored 0 s ≡ s
  unfolding replace_from contains
  replace_from-untouched stored [] h = refl
  replace_from-untouched stored (c ∷ cs) h =
      rw (reference_at-none (c ∷ cs) (ground arith), replace_from)
        (ap (◌∷◌ c) (replace_from-untouched stored cs (ground arith)))

  -- Text in front of the first brace is kept, and a reference behind it is replaced, whatever follows.
  pub resolve_templates-matched :
      (stored : Stored Num) (before after : Text) (r : Reference)
      → all (λ c. not (c == b'{')) before ≡ true
      → IsReference r
      → resolve_templates R C (before ++ (matched r ++ after)) stored
        ≡ before ++ (replace R C stored r ++ resolve_templates R C after stored)
  unfolding resolve_templates
  resolve_templates-matched stored before after r h wf =
      replace_from-plain stored before (matched r ++ after) h
      ∙ ap (λ s. before ++ s) (replace_from-matched stored r after wf)

  -- Without a template in it, a text is not changed.
  pub resolve_templates-untouched :
      (stored : Stored Num) (s : Text)
      → contains s opening ≡ false
      → resolve_templates R C s stored ≡ s
  unfolding resolve_templates
  resolve_templates-untouched = replace_from-untouched

  -- The tests of resolveMatcherTemplates only save work: its result is the matcher's text with the
  -- references replaced, where a matcher's text stands for the matcher.
  pub resolve_matcher_templates-resolve_templates :
      (stored : Stored Num) (matcher : Raw Num)
      → C.raw_of (C.text_of matcher) ≡ matcher
      → resolve_matcher_templates R C matcher stored
        ≡ C.raw_of (resolve_templates R C (C.text_of matcher) stored)
  unfolding resolve_matcher_templates
  resolve_matcher_templates-resolve_templates stored matcher h =
      let s = C.text_of matcher in
      let resolved = resolve_templates R C s stored in
      elim (Bool-cases (contains s opening)) [
        | inr e ↦ rw (e, resolve_matcher_templates, resolve_templates-untouched stored s e) (sym h)
        | inl e ↦ elim (Bool-cases (str_eq resolved s)) [
          | inl same ↦
              rw (e, same, resolve_matcher_templates)
                (sym h ∙ ap C.raw_of (sym ((str_eq_iff resolved s).0 same)))
          | inr other ↦ rw (e, other, resolve_matcher_templates) refl
        ]
      ]
