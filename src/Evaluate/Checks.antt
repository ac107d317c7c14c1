-- ===== src/Evaluate/Checks.antt =====
-- The parts of evaluateAssertions (runner/http/runner.go, runner/grpc/runner.go) that look at the
-- status, the headers, the time and the raw body: each has the failures that it appends.
use ojs_conformance.Common.{
  Text, text, ℤ, Bool, true, false, not, List, [], ◌∷◌, ◌++◌, Option, none, some, any, eq_ℤ, ltb_ℤ,
  str_eq, contains, decimal_ℤ, if◌then◌else◌,
}
use ojs_conformance.Json.{Runtime, Raw}
use ojs_conformance.Schema.{TimingAssertion, Failure}
use ojs_conformance.Schema.Headers.{HeaderMatcher, get_text}
use ojs_conformance.Timing.{Arithmetic, TimingConfig, assert_approximate_ms}
use ojs_conformance.Evaluate.{Codec, failure}
use ojs_conformance.Evaluate.Status.{evaluate_status_assertion, show_ints}

abbrev pub failing : Bool → Failure → List Failure
failing true f = f ∷ []
failing false f = []

-- An entry for each text that the raw body does not contain.
unfoldable pub body_contains_failures : (Text → Text) → Text → Text → List Text → List Failure
unfolding contains
body_contains_failures quote id body [] = []
body_contains_failures quote id body (substr ∷ substrs) =
    failing (not (contains body substr)) (
      failure id (text "body_contains") (text "body containing " ++ quote substr) []
        (text "Response body does not contain " ++ quote substr))
    ++ body_contains_failures quote id body substrs

unfoldable pub status_in_failures : Text → List ℤ → ℤ → List Failure
status_in_failures id [] actual = []
status_in_failures id (z ∷ zs) actual = failing (not (any (eq_ℤ actual) (z ∷ zs))) (
    failure id (text "status") (text "one of " ++ show_ints (z ∷ zs)) (decimal_ℤ actual)
      (text "Expected status in " ++ (show_ints (z ∷ zs) ++ (text ", got " ++ decimal_ℤ actual))))

module _ {Num : Type 0} (R : Runtime Num) (A : Arithmetic Num) (C : Codec Num) where
  unfoldable pub status_failures : (ℤ → Text) → Text → Option (Raw Num) → ℤ → List Failure
  unfolding evaluate_status_assertion
  status_failures suffix id none actual = []
  status_failures suffix id (some raw) actual =
      elim (evaluate_status_assertion R C suffix raw actual) [
        | none ↦ []
        | some message ↦ failure id (text "status") (C.text_of raw) (decimal_ℤ actual) message ∷ []
      ]

  -- http.Header.Get; the parameter is the canonical form of the keys.
  abbrev pub header_get : Text → List (Text × Text) → Text
  header_get key headers = elim (get_text (C.header_key key) headers) [ none ↦ [] | some v ↦ v ]

  -- Whether a header's value is as wanted; a pattern that does not compile matches nothing.
  abbrev pub header_matches : HeaderMatcher → Text → Bool
  header_matches hm actual =
      if hm.is_regex
      then elim (R.compile hm.value) [ none ↦ false | some matches ↦ matches actual ]
      else str_eq actual hm.value

  unfoldable pub header_failures :
      Text → List (Text × HeaderMatcher) → List (Text × Text) → List Failure
  unfolding str_eq
  header_failures id [] headers = []
  header_failures id ((key, hm) ∷ hms) headers =
      let actual = header_get key headers in
      failing (not (header_matches hm actual)) (
        failure id (text "header:" ++ key) hm.value actual (
          text "Expected header "
          ++ (C.quote key
              ++ (text "=" ++ (C.quote hm.value ++ (text ", got " ++ C.quote actual))))))
      ++ header_failures id hms headers

  abbrev pub less_failures : Text → ℤ → Option ℤ → List Failure
  less_failures id actual none = []
  less_failures id actual (some limit) = failing (not (ltb_ℤ actual limit)) (
      failure id (text "timing") (text "< " ++ (decimal_ℤ limit ++ text "ms"))
        (decimal_ℤ actual ++ text "ms")
        (text "Expected response in < "
          ++ (decimal_ℤ limit ++ (text "ms, took " ++ (decimal_ℤ actual ++ text "ms")))))

  abbrev pub greater_failures : Text → ℤ → Option ℤ → List Failure
  greater_failures id actual none = []
  greater_failures id actual (some limit) = failing (not (ltb_ℤ limit actual)) (
      failure id (text "timing") (text "> " ++ (decimal_ℤ limit ++ text "ms"))
        (decimal_ℤ actual ++ text "ms")
        (text "Expected response in > "
          ++ (decimal_ℤ limit ++ (text "ms, took " ++ (decimal_ℤ actual ++ text "ms")))))

  unfoldable pub approximate_failures : TimingConfig Num → Text → ℤ → Option ℤ → List Failure
  unfolding assert_approximate_ms
  approximate_failures tc id actual none = []
  approximate_failures tc id actual (some expected) =
      elim (assert_approximate_ms R A tc (R.of_int expected) (R.of_int actual)) [
        | none ↦ []
        | some e ↦ failure id (text "timing") [] [] (C.timing_message e) ∷ []
      ]

  unfoldable pub timing_failures :
      TimingConfig Num → Text → ℤ → Option TimingAssertion → List Failure
  unfolding approximate_failures
  timing_failures tc id actual none = []
  timing_failures tc id actual (some t) =
      less_failures id actual t.less_than
      ++ (greater_failures id actual t.greater_than
          ++ approximate_failures tc id actual t.approximate)
