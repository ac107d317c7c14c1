-- ===== src/Evaluate/Templates.antt =====
-- resolveTemplates and resolveMatcherTemplates of runner/http/runner.go and runner/grpc/runner.go, with
-- the pattern \{\{steps\.([^.]+)\.response\.body\.([^}]+)\}\} read by hand: each of its two runs of
-- characters ends at the first character that it excludes.
use ojs_conformance.Common.{
  ℕ, zero, suc, ◌-◌, Text, text, [], ◌∷◌, ◌++◌, Option, none, some, length, drop, cut, has_prefix,
  contains, str_eq, decimal_ℤ, if◌then◌else◌, ◌>>=◌,
}
use ojs_conformance.Json.{Runtime, Value, Raw}
use ojs_conformance.JsonPath.{resolve_json_path, Resolved, ok, err}
use ojs_conformance.Runner.{Stored}
use ojs_conformance.Evaluate.{Codec, get_stored}

abbrev pub opening : Text
opening = text "{{steps."

abbrev pub middle : Text
middle = text "response.body."

-- A match of the pattern, by its two groups.
pub record Reference : Type 0 where
  pub step_id : Text
  pub field_path : Text

-- The text that matched.
abbrev pub matched : Reference → Text
matched r = opening ++ (r.step_id ++ (b'.' ∷ (middle ++ (r.field_path ++ text "}}"))))

unfoldable pub closed : Text → Text × Text → Option Reference
unfolding has_prefix
closed step_id ([], rest) = none
closed step_id (c ∷ cs, rest) =
    if has_prefix rest (text "}")
    then some (record { step_id = step_id; field_path = c ∷ cs })
    else none

-- The second group, behind the first.
unfoldable pub field_of : Text → Text → Option Reference
unfolding has_prefix cut closed
field_of step_id rest =
    if has_prefix rest middle
    then (do g ← cut (text "}") (drop (length middle) rest); closed step_id g)
    else none

unfoldable pub named : Text × Text → Option Reference
unfolding field_of
named ([], rest) = none
named (c ∷ cs, rest) = field_of (c ∷ cs) rest

-- The match at the start of the text.
unfoldable pub reference_at : Text → Option Reference
unfolding has_prefix cut named
reference_at s =
    if has_prefix s opening
    then (do g ← cut (text ".") (drop (length opening) s); named g)
    else none

module _ {Num : Type 0} (R : Runtime Num) (C : Codec Num) where
  -- The value in place of a match, or the match itself.
  unfoldable pub replacement : Text → Resolved Num → Text
  replacement original (err e) = original
  replacement original (ok Value.null) = original
  replacement original (ok (Value.string s)) = s
  replacement original (ok (Value.float64 v)) =
      if R.eq v (R.of_int (R.int64_of v)) then decimal_ℤ (R.int64_of v) else R.format_float v
  replacement original (ok v) = C.marshal v

  unfoldable pub replace : Stored Num → Reference → Text
  unfolding replacement str_eq
  replace stored r = elim (get_stored r.step_id stored) [
    | none ↦ matched r
    | some sr ↦ elim sr.parsed [
      | none ↦ matched r
      | some es ↦ replacement (matched r) (resolve_json_path R r.field_path (Value.object es))
    ]
  ]

  -- ReplaceAllStringFunc; the first argument counts what remains of the last match.
  unfoldable pub replace_from : Stored Num → ℕ → Text → Text
  unfolding reference_at replace
  replace_from stored skip [] = []
  replace_from stored (suc skip) (c ∷ cs) = replace_from stored skip cs
  replace_from stored zero (c ∷ cs) =
      let kept = c ∷ replace_from stored 0 cs in
      elim (reference_at (c ∷ cs)) [
        | none ↦ kept
        | some r ↦ replace stored r ++ replace_from stored (length (matched r) - 1) cs
      ]

  -- resolveTemplates
  unfoldable pub resolve_templates : Text → Stored Num → Text
  unfolding replace_from
  resolve_templates input stored = replace_from stored 0 input

  -- resolveMatcherTemplates
  unfoldable pub resolve_matcher_templates : Raw Num → Stored Num → Raw Num
  unfolding contains resolve_templates str_eq
  resolve_matcher_templates matcher stored =
      let s = C.text_of matcher in
      let resolved = resolve_templates s stored in
      if contains s opening
      then (if str_eq resolved s then matcher else C.raw_of resolved)
      else matcher
