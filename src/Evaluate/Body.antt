-- ===== src/Evaluate/Body.antt =====
-- The body assertions of evaluateAssertions (runner/http/runner.go, runner/grpc/runner.go).
use ojs_conformance.Common.{
  Text, text, Bool, true, false, not, ◌&&◌, List, [], ◌∷◌, ◌++◌, Option, none, some, has_prefix,
  str_eq, if◌then◌else◌,
}
use ojs_conformance.Json.{Runtime, Value, Raw}
use ojs_conformance.Json.Unmarshal.{get_field, unmarshal_array, unmarshal_object}
use ojs_conformance.JsonPath.{resolve_json_path, Resolved, ok, err}
use ojs_conformance.Assertions.{pass, fail, passes, is_null}
use ojs_conformance.Assertions.Match.{match_assertion, wants_absent}
use ojs_conformance.Schema.{StepResult, Failure}
use ojs_conformance.Runner.{Stored}
use ojs_conformance.Evaluate.{Codec, failure, parsed_value}
use ojs_conformance.Evaluate.Templates.{resolve_templates, resolve_matcher_templates}
use ojs_conformance.Evaluate.Checks.{failing}

-- A key that is an operator and no path.
abbrev pub is_operator : Text → Bool
is_operator path = has_prefix path (text "$") && not (has_prefix path (text "$."))

module _ {Num : Type 0} where
  -- A value other than nil was found; an error leaves nil.
  abbrev pub is_found : Resolved Num → Bool
  is_found (err e) = false
  is_found (ok v) = not (is_null v)

module _ {Num : Type 0} (R : Runtime Num) (C : Codec Num) where
  -- The value at the path is there and matches.
  abbrev pub found_matches : Raw Num → Resolved Num → Bool
  found_matches matcher (err e) = false
  found_matches matcher (ok v) = passes (match_assertion R matcher v)

  -- The entries of one alternative of `$or`, whose paths are taken as they are.
  unfoldable pub alternative_holds : Stored Num → Value Num → List (Text × Raw Num) → Bool
  unfolding resolve_matcher_templates resolve_json_path match_assertion
  alternative_holds stored parsed [] = true
  alternative_holds stored parsed ((p, m) ∷ alt_body) =
      found_matches (resolve_matcher_templates R C m stored) (resolve_json_path R p parsed)
      && alternative_holds stored parsed alt_body

  -- The loop over the alternatives; one that is no object is left out.
  unfoldable pub some_alternative : Stored Num → Value Num → List (Raw Num) → Bool
  unfolding alternative_holds
  some_alternative stored parsed [] = false
  some_alternative stored parsed (alt ∷ alternatives) =
      let later = some_alternative stored parsed alternatives in
      elim (unmarshal_object alt) [
        | none ↦ later
        | some alt_body ↦ if alternative_holds stored parsed alt_body then true else later
      ]

  -- The operator `$or` of the body, ignored unless it is an array.
  unfoldable pub or_failures : Stored Num → Text → Value Num → List (Text × Raw Num) → List Failure
  unfolding some_alternative
  or_failures stored id parsed body = elim (get_field (text "$or") body) [
    | none ↦ []
    | some or_raw ↦ elim (unmarshal_array or_raw) [
      | none ↦ []
      | some alternatives ↦
          failing (not (some_alternative stored parsed alternatives))
            (failure id (text "$or") [] [] (text "No $or alternative matched"))
    ]
  ]

  abbrev show_actual : Value Num → Text
  show_actual v = if is_null v then text "null" else C.marshal v

  -- One path of the body, with its matcher after the templates.
  unfoldable pub path_failures : Text → Text → Raw Num → Resolved Num → List Failure
  unfolding match_assertion str_eq
  path_failures id path matcher (err e) = failing (not (wants_absent matcher)) (
      failure id path [] []
        (text "Failed to resolve path " ++ (C.quote path ++ (text ": " ++ C.path_message e))))
  path_failures id path matcher (ok v) = elim (match_assertion R matcher v) [
    | pass ↦ []
    | fail e ↦
        failure id path (C.text_of matcher) (show_actual v)
          (text "Assertion failed at " ++ (C.quote path ++ (text ": " ++ C.mismatch_message e)))
        ∷ []
  ]

  -- The loop over the body's paths.
  unfoldable pub paths_failures :
      Stored Num → Text → Value Num → List (Text × Raw Num) → List Failure
  unfolding resolve_templates resolve_matcher_templates resolve_json_path path_failures has_prefix
  paths_failures stored id parsed [] = []
  paths_failures stored id parsed ((path, matcher) ∷ body) =
      let later = paths_failures stored id parsed body in
      if is_operator path
      then later
      else path_failures id path (resolve_matcher_templates R C matcher stored)
          (resolve_json_path R (resolve_templates R C path stored) parsed)
        ++ later

  -- The body assertions; the paths are looked at only if the response was a JSON object.
  unfoldable pub body_failures :
      Stored Num → Text → StepResult Num → Option (List (Text × Raw Num)) → List Failure
  unfolding or_failures paths_failures
  body_failures stored id sr none = []
  body_failures stored id sr (some body) =
      or_failures stored id (parsed_value sr) body
      ++ elim sr.parsed [ none ↦ [] | some es ↦ paths_failures stored id (Value.object es) body ]

  unfoldable pub body_absent_failures : Text → Value Num → List Text → List Failure
  unfolding resolve_json_path
  body_absent_failures id parsed [] = []
  body_absent_failures id parsed (path ∷ paths) =
      failing (is_found (resolve_json_path R path parsed))
        (failure id path [] [] (text "Expected field " ++ (C.quote path ++ text " to be absent")))
      ++ body_absent_failures id parsed paths
