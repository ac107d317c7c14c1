-- ===== src/Assertions/Strings.antt =====
-- lib/assertions.go: matchStringAssertion, the matchers that are written as a string.
pub mod Laws
use ojs_conformance.Common.{
  ℕ, ◌-◌, Text, text, ℤ, pos, Bool, true, false, not, ◌&&◌, ◌||◌, List, [], ◌∷◌, Option, none, some,
  ◌==◌, leb, ltb_ℤ, eq_ℤ, if◌then◌else◌, str_eq, has_prefix, has_suffix, contains, atoi, length,
  drop, take, any,
}
use ojs_conformance.Json.{Runtime, Value, Values, elements}
use ojs_conformance.Assertions.{
  Verdict, pass, fail, Mismatch, wrong_type, wrong_value, wrong_length, unexpected, missing,
  invalid_matcher, require, is_null, to_float64,
}
use ojs_conformance.Assertions.Format.{sprint_v}
use ojs_conformance.Assertions.Patterns.{
  is_uuid, is_uuid_v7, is_datetime, range_pattern, length_pattern, approx_pattern, digits_int,
}

module _ {Num : Type 0} where
  -- The type assertions `actual.(string)` and `actual.([]any)`, with the failure that follows them.
  abbrev pub on_string : Value Num → (Text → Verdict) → Verdict
  on_string (Value.string s) f = f s
  on_string _ f = fail wrong_type

  abbrev pub on_array : Value Num → (List (Value Num) → Verdict) → Verdict
  on_array (Value.array vs) f = f (elements vs)
  on_array _ f = fail wrong_type

  abbrev pub on_number : Option Num → (Num → Verdict) → Verdict
  on_number none f = fail wrong_type
  on_number (some n) f = f n

abbrev pub on_int : Option ℤ → (ℤ → Verdict) → Verdict
on_int none f = fail invalid_matcher
on_int (some n) f = f n

-- The number behind a prefix such as `array:min:`.
abbrev pub with_atoi : Text → (ℤ → Verdict) → Verdict
with_atoi s f = on_int (atoi s) f

abbrev pub behind : Text → Text → Text
behind p s = drop (length p) s

module _ {Num : Type 0} (R : Runtime Num) where
  -- Some element is printed as the target.
  unfoldable pub has_item : Text → List (Value Num) → Bool
  has_item target [] = false
  has_item target (v ∷ vs) = str_eq (sprint_v R v) target || has_item target vs

  -- The literal comparison at the end of the function.
  unfoldable pub match_literal : Text → Value Num → Verdict
  match_literal matcher actual = on_string actual λ s. require (str_eq s matcher) wrong_value

  match_regex_text : Text → Value Num → Verdict
  match_regex_text pattern actual = on_string actual λ s. elim (R.compile pattern) [
    | none ↦ fail invalid_matcher
    | some matches ↦ require (matches s) wrong_value
  ]

  -- `string:pattern(regex)`, and the literal comparison.
  unfoldable pub match_pattern_or_literal : Text → Value Num → Verdict
  unfolding has_prefix has_suffix match_literal match_regex_text
  match_pattern_or_literal matcher actual =
      let inner = behind (text "string:pattern(") matcher in
      if has_prefix matcher (text "string:pattern(") && has_suffix matcher (text ")")
      then match_regex_text (take (length inner - 1) inner) actual
      else match_literal matcher actual

  match_range : Text × Text → Value Num → Verdict
  match_range (lo, hi) actual = on_number (to_float64 R actual) λ n.
      require (not (R.lt n ((R.parse_float lo).0) || R.lt ((R.parse_float hi).0) n)) wrong_value

  match_length : Text → Value Num → Verdict
  match_length ds actual = on_array actual λ arr. require (length arr == digits_int ds) wrong_length

  -- The tolerance is 50 percent of the expected value.
  match_approx : Text → Value Num → Verdict
  match_approx d actual = on_number (to_float64 R actual) λ n.
      let expected = (R.parse_float d).0 in
      require (not (R.lt (R.half expected) (R.abs (R.sub n expected)))) wrong_value

  -- The matchers that a regular expression recognises, and what follows them.
  unfoldable pub match_by_pattern : Text → Value Num → Verdict
  unfolding match_pattern_or_literal match_range match_length match_approx
  match_by_pattern matcher actual = elim (range_pattern matcher) [
    | some g ↦ match_range g actual
    | none ↦ elim (length_pattern matcher) [
      | some ds ↦ match_length ds actual
      | none ↦ elim (approx_pattern matcher) [
        | some d ↦ match_approx d actual
        | none ↦ match_pattern_or_literal matcher actual
      ]
    ]
  ]

  -- The matchers with a fixed prefix, in the order of the source.
  unfoldable pub match_by_prefix : Text → Value Num → Verdict
  unfolding has_prefix has_item match_by_pattern
  match_by_prefix m actual =
      let at_least = λ (p : Text).
        with_atoi (behind p m)
          λ n. on_array actual λ arr. require (not (ltb_ℤ (pos (length arr)) n)) wrong_length in
      if has_prefix m (text "array:min_length:")
      then at_least (text "array:min_length:")
      else if has_prefix m (text "array:min:")
      then at_least (text "array:min:")
      else if has_prefix m (text "array:length:")
      then with_atoi (behind (text "array:length:") m)
          (λ n. on_array actual λ arr. require (eq_ℤ (pos (length arr)) n) wrong_length)
      else if has_prefix m (text "contains:")
      then on_array actual (λ arr. require (has_item (behind (text "contains:") m) arr) wrong_value)
      else if has_prefix m (text "not_contains:")
      then on_array actual
          (λ arr. require (not (has_item (behind (text "not_contains:") m) arr)) wrong_value)
      else if has_prefix m (text "string:contains:")
      then on_string actual
          (λ s. require (contains s (behind (text "string:contains:") m)) wrong_value)
      else match_by_pattern m actual

  -- The cases of the switch.
  unfoldable pub match_string_assertion : Text → Value Num → Verdict
  unfolding str_eq match_by_prefix
  match_string_assertion m actual =
      let is = str_eq m in
      let zero_float = R.of_int (pos 0) in
      if is (text "any")
      then pass
      else if is (text "absent")
      then require (is_null actual) unexpected
      else if is (text "exists")
      then require (not (is_null actual)) missing
      else if is (text "string:nonempty") || is (text "string:non_empty")
      then on_string actual (λ s. require (not (str_eq s [])) wrong_value)
      else if is (text "string:uuid")
      then on_string actual (λ s. require (is_uuid s) wrong_value)
      else if is (text "string:uuidv7")
      then on_string actual (λ s. require (is_uuid_v7 s) wrong_value)
      else if is (text "string:datetime")
      then on_string actual (λ s. require (is_datetime s) wrong_value)
      else if is (text "number:positive")
      then on_number (to_float64 R actual)
          (λ n. require (not (R.lt n zero_float || R.eq n zero_float)) wrong_value)
      else if is (text "number:non_negative")
      then on_number (to_float64 R actual) (λ n. require (not (R.lt n zero_float)) wrong_value)
      else if is (text "array:nonempty")
      then on_array actual (λ arr. require (not (length arr == 0)) wrong_length)
      else if is (text "array:empty")
      then on_array actual (λ arr. require (length arr == 0) wrong_length)
      else match_by_prefix m actual
