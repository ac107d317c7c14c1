-- ===== src/Evaluate/Status.antt =====
-- evaluateStatusAssertion of runner/http/runner.go and runner/grpc/assertions.go. The two differ in
-- what the messages end with: nothing, or the gRPC code. An error is its message.
use ojs_conformance.Common.{
  Text, text, ℤ, List, [], ◌∷◌, ◌++◌, Option, none, some, length, drop, has_prefix, split_on,
  trim_space, atoi, eq_ℤ, decimal_ℤ, join, map, any, if◌then◌else◌, ◌>>=◌,
}
use ojs_conformance.Json.{Runtime, Value, Raw}
use ojs_conformance.Json.Unmarshal.{
  get_field, unmarshal_int, unmarshal_string, unmarshal_array, unmarshal_object,
}
use ojs_conformance.Assertions.{pass, fail}
use ojs_conformance.Assertions.Match.{match_assertion}
use ojs_conformance.Evaluate.{Codec}

-- The verb %v on a []int.
abbrev pub show_ints : List ℤ → Text
show_ints zs = b'[' ∷ (join (text " ") (map decimal_ℤ zs) ++ text "]")

abbrev pub one_of : Text
one_of = text "one_of:"

-- The codes behind `one_of:`.
abbrev pub codes_of : Text → Text
codes_of status_str = drop (length one_of) status_str

-- The message where the code is none of them.
abbrev pub refused_message : (ℤ → Text) → ℤ → Text → Text
refused_message suffix actual codes_str =
    text "expected status one of ["
    ++ (codes_str ++ (text "], got " ++ (decimal_ℤ actual ++ suffix actual)))

-- The loop over the codes of `one_of:`, with the message at its end.
unfoldable pub one_of_loop : (Text → Text) → Text → ℤ → List Text → Option Text
unfolding trim_space atoi
one_of_loop quote refused actual [] = some refused
one_of_loop quote refused actual (code_str ∷ codes) =
    let later = one_of_loop quote refused actual codes in
    elim (atoi (trim_space code_str)) [
      | none ↦ some (
          text "invalid status code " ++ (quote (trim_space code_str) ++ text " in one_of matcher"))
      | some code ↦ if eq_ℤ actual code then none else later
    ]

module _ {Num : Type 0} where
  -- json.Unmarshal into a []int
  unfoldable pub ints : List (Raw Num) → Option (List ℤ)
  ints [] = some []
  ints (r ∷ rs) = do z ← unmarshal_int r; zs ← ints rs; some (z ∷ zs)

  abbrev pub unmarshal_ints : Raw Num → Option (List ℤ)
  unmarshal_ints raw = do rs ← unmarshal_array raw; ints rs

  -- The list of the object form.
  abbrev pub in_list : Raw Num → Option (List ℤ)
  in_list raw = do
    status_obj ← unmarshal_object raw
    in_raw ← get_field (text "$in") status_obj
    unmarshal_ints in_raw

module _ {Num : Type 0} (R : Runtime Num) (C : Codec Num) where
  -- lib.MatchAssertion on the code, as an error
  abbrev pub match_code : Raw Num → ℤ → Option Text
  match_code raw actual = elim (match_assertion R raw (Value.float64 (R.of_int actual))) [
    | pass ↦ none
    | fail e ↦ some (C.mismatch_message e)
  ]

  -- evaluateStatusAssertion; `suffix` makes the end of a message from the code.
  unfoldable pub evaluate_status_assertion : (ℤ → Text) → Raw Num → ℤ → Option Text
  unfolding match_assertion has_prefix one_of_loop split_on ints
  evaluate_status_assertion suffix raw actual = elim (unmarshal_int raw) [
    | some status_int ↦
        if eq_ℤ actual status_int
        then none
        else some (
            text "Expected status "
            ++ (decimal_ℤ status_int ++ (text ", got " ++ (decimal_ℤ actual ++ suffix actual))))
    | none ↦ elim (unmarshal_string raw) [
      | some status_str ↦
          if has_prefix status_str one_of
          then one_of_loop C.quote (refused_message suffix actual (codes_of status_str)) actual
              (split_on b',' (codes_of status_str))
          else match_code raw actual
      | none ↦ elim (in_list raw) [
        | none ↦ some (text "Unknown status assertion format: " ++ C.text_of raw)
        | some list ↦
            if any (eq_ℤ actual) list
            then none
            else some (
                text "Expected status in "
                ++ (show_ints list ++ (text ", got " ++ (decimal_ℤ actual ++ suffix actual))))
      ]
    ]
  ]
