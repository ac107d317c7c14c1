-- ===== src/Assertions/Match.antt =====
-- lib/assertions.go: MatchAssertion and the object operators. Each function takes the recursive call
-- of MatchAssertion as the argument `rec`; `match_assertion` ties the knot with the size of the
-- matcher as fuel. A map is ranged over in the order of its list of fields.
pub mod Total
pub mod Object
pub mod Alternatives
use ojs_conformance.Common.{
  ℕ, zero, suc, Text, text, ℤ, pos, Bool, true, false, not, ◌&&◌, ◌||◌, List, [], ◌∷◌, Option, none,
  some, ◌==◌, ltb_ℤ, eq_ℤ, if◌then◌else◌, str_eq, length,
}
use ojs_conformance.Json.{Runtime, Value, Raw, elements, get_entry}
use ojs_conformance.Json.Unmarshal.{
  get_field, has_field, unmarshal_string, unmarshal_bool, unmarshal_int, unmarshal_float,
  unmarshal_array, unmarshal_object,
}
use ojs_conformance.Json.Size.{size}
use ojs_conformance.Assertions.{
  Verdict, pass, fail, Mismatch, wrong_type, wrong_value, wrong_length, unexpected, missing,
  invalid_matcher, no_alternative, at_index, at_field, out_of_fuel, passes, wrap, and_then, require,
  is_null, to_float64, match_number_assertion, json_type,
}
use ojs_conformance.Assertions.Strings.{on_string, on_array, on_number, match_string_assertion}

-- The recursive call.
abbrev pub Rec : Type 0 → Type 0
Rec Num = Raw Num → Value Num → Verdict

-- A map[string]json.RawMessage.
abbrev pub Map : Type 0 → Type 0
Map Num = List (Text × Raw Num)

module _ {Num : Type 0} where
  -- `expected[k]` of a key that the caller has seen; a missing key would unmarshal as no JSON.
  abbrev pub operand : Text → Map Num → Raw Num
  operand k m = elim (get_field k m) [ none ↦ Raw.malformed [] | some r ↦ r ]

  -- matchArrayAssertion, from index `i`; the lengths are equal here.
  unfoldable pub match_elements : Rec Num → ℕ → List (Raw Num) → List (Value Num) → Verdict
  match_elements rec i [] vs = pass
  match_elements rec i (r ∷ rs) [] = pass
  match_elements rec i (r ∷ rs) (v ∷ vs) =
      and_then (wrap (at_index i) (rec r v)) (match_elements rec (suc i) rs vs)

  unfoldable pub match_array_assertion : Rec Num → List (Raw Num) → Value Num → Verdict
  unfolding match_elements
  match_array_assertion rec expected actual = on_array actual λ arr.
      if length arr == length expected then match_elements rec 0 expected arr else fail wrong_length

  -- `json.Unmarshal(exp, &s) == nil && s == "absent"`
  abbrev pub wants_absent : Raw Num → Bool
  wants_absent exp = elim (unmarshal_string exp) [
    | none ↦ false
    | some s ↦ str_eq s (text "absent")
  ]

  -- One expected field against the object's value, if there is one; the flag says that the matcher
  -- is `absent`.
  unfoldable pub match_field : Rec Num → Text → Raw Num → Bool → Option (Value Num) → Verdict
  match_field rec key exp true none = pass
  match_field rec key exp true (some v) = fail (at_field key unexpected)
  match_field rec key exp false none = fail (at_field key missing)
  match_field rec key exp false (some v) = wrap (at_field key) (rec exp v)

  unfoldable pub match_fields : Rec Num → Map Num → (Text → Option (Value Num)) → Verdict
  unfolding match_field
  match_fields rec [] obj = pass
  match_fields rec ((key, exp) ∷ fs) obj =
      and_then (match_field rec key exp (wants_absent exp) (obj key)) (match_fields rec fs obj)

  -- The `actual.(map[string]any)` at the end of matchObjectAssertion.
  unfoldable pub match_plain_object : Rec Num → Map Num → Value Num → Verdict
  unfolding match_fields
  match_plain_object rec expected (Value.object es) =
      match_fields rec expected (λ key. get_entry key es)
  match_plain_object rec expected _ = fail wrong_type

  -- The `$type` of matchExistsAssertion: ignored unless it is a string.
  match_type : Option (Raw Num) → Value Num → Verdict
  unfolding json_type
  match_type none actual = pass
  match_type (some type_raw) actual = elim (unmarshal_string type_raw) [
    | none ↦ pass
    | some expected_type ↦ require (str_eq (json_type actual) expected_type) wrong_type
  ]

  unfoldable pub match_exists_assertion : Map Num → Value Num → Verdict
  unfolding match_type
  match_exists_assertion expected actual =
      elim (unmarshal_bool (operand (text "$exists") expected)) [
        | none ↦ fail invalid_matcher
        | some exists ↦
            if exists && is_null actual
            then fail missing
            else if not exists && not (is_null actual)
            then fail unexpected
            else match_type (get_field (text "$type") expected) actual
      ]

  -- The loop of `$in` and of `$or`: the first alternative that passes.
  unfoldable pub match_any : Rec Num → List (Raw Num) → Value Num → Verdict
  match_any rec [] actual = fail no_alternative
  match_any rec (r ∷ rs) actual =
      let rest = match_any rec rs actual in if passes (rec r actual) then pass else rest

  unfoldable pub match_alternatives : Text → Rec Num → Map Num → Value Num → Verdict
  unfolding match_any
  match_alternatives key rec expected actual = elim (unmarshal_array (operand key expected)) [
    | none ↦ fail invalid_matcher
    | some rs ↦ match_any rec rs actual
  ]

  match_size_object : Option (Map Num) → ℕ → Verdict
  match_size_object none n = fail invalid_matcher
  match_size_object (some size_obj) n = elim (get_field (text "$gte") size_obj) [
    | none ↦ fail invalid_matcher
    | some gte_raw ↦ elim (unmarshal_int gte_raw) [
      | none ↦ fail invalid_matcher
      | some gte ↦ require (not (ltb_ℤ (pos n) gte)) wrong_length
    ]
  ]

  unfoldable pub match_size_assertion : Map Num → Value Num → Verdict
  unfolding match_size_object
  match_size_assertion expected actual = on_array actual λ arr.
      let operand_raw = operand (text "$size") expected in
      elim (unmarshal_int operand_raw) [
        | some size_int ↦ require (eq_ℤ (pos (length arr)) size_int) wrong_length
        | none ↦ match_size_object (unmarshal_object operand_raw) (length arr)
      ]

  module _ (R : Runtime Num) where
    unfoldable pub match_regex_assertion : Map Num → Value Num → Verdict
    match_regex_assertion expected actual =
        elim (unmarshal_string (operand (text "$match") expected)) [
          | none ↦ fail invalid_matcher
          | some pattern ↦ on_string actual (λ s. elim (R.compile pattern) [
            | none ↦ fail invalid_matcher
            | some matches ↦ require (matches s) wrong_value
          ])
        ]

    -- `n < min` or `n > max`; a bound that is no number is ignored.
    bound_fails : (Num → Bool) → Option (Raw Num) → Bool
    bound_fails beyond none = false
    bound_fails beyond (some raw) = elim (unmarshal_float R raw) [
      | none ↦ false
      | some b ↦ beyond b
    ]

    unfoldable pub match_range_assertion : Raw Num → Value Num → Verdict
    unfolding to_float64 bound_fails
    match_range_assertion range_raw actual = elim (unmarshal_object range_raw) [
      | none ↦ fail invalid_matcher
      | some range_obj ↦ on_number (to_float64 R actual) (λ n.
          if bound_fails (λ lo. R.lt n lo) (get_field (text "min") range_obj)
          then fail wrong_value
          else if bound_fails (λ hi. R.lt hi n) (get_field (text "max") range_obj)
          then fail wrong_value
          else pass)
    ]

    -- The operators are tried in this order, before the fields.
    unfoldable pub match_object_assertion : Rec Num → Map Num → Value Num → Verdict
    unfolding has_field match_exists_assertion match_regex_assertion match_alternatives
        match_size_assertion match_range_assertion match_plain_object
    match_object_assertion rec expected actual =
        if has_field (text "$exists") expected
        then match_exists_assertion expected actual
        else if has_field (text "$match") expected
        then match_regex_assertion expected actual
        else if has_field (text "$in") expected
        then match_alternatives (text "$in") rec expected actual
        else if has_field (text "$size") expected
        then match_size_assertion expected actual
        else if has_field (text "$or") expected
        then match_alternatives (text "$or") rec expected actual
        else if has_field (text "$empty") expected
        then pass
        else elim (get_field (text "range") expected) [
          | some range_raw ↦ match_range_assertion range_raw actual
          | none ↦ match_plain_object rec expected actual
        ]

    match_bool : Bool → Value Num → Verdict
    match_bool true (Value.bool b) = require b wrong_value
    match_bool false (Value.bool b) = require (not b) wrong_value
    match_bool _ _ = fail wrong_type

    -- The successive attempts to unmarshal the matcher, behind the test for null.
    unfoldable pub match_unmarshalled : Rec Num → Raw Num → Value Num → Verdict
    unfolding match_string_assertion match_number_assertion match_bool match_array_assertion
        match_object_assertion
    match_unmarshalled rec matcher actual = elim (unmarshal_string matcher) [
      | some s ↦ match_string_assertion R s actual
      | none ↦ elim (unmarshal_float R matcher) [
        | some n ↦ match_number_assertion R n actual
        | none ↦ elim (unmarshal_bool matcher) [
          | some b ↦ match_bool b actual
          | none ↦ elim (unmarshal_array matcher) [
            | some rs ↦ match_array_assertion rec rs actual
            | none ↦ elim (unmarshal_object matcher) [
              | some fs ↦ match_object_assertion rec fs actual
              | none ↦ fail invalid_matcher
            ]
          ]
        ]
      ]
    ]

    -- The body of MatchAssertion.
    unfoldable pub match_with : Rec Num → Raw Num → Value Num → Verdict
    unfolding match_unmarshalled
    match_with rec Raw.null actual = require (is_null actual) wrong_type
    match_with rec matcher actual = match_unmarshalled rec matcher actual

    unfoldable pub match_fuel : ℕ → Rec Num
    unfolding match_with
    match_fuel zero matcher actual = fail out_of_fuel
    match_fuel (suc f) matcher actual = match_with (match_fuel f) matcher actual

    -- MatchAssertion
    unfoldable pub match_assertion : Rec Num
    unfolding match_fuel size
    match_assertion matcher actual = match_fuel (size matcher) matcher actual
