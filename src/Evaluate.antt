-- ===== src/Evaluate.antt =====
-- The evaluation of a step's assertions, evaluateAssertions and what it calls in runner/http/runner.go,
-- runner/grpc/runner.go and runner/grpc/assertions.go. encoding/json, the wording of errors and
-- textproto.CanonicalMIMEHeaderKey are fields of `Codec`. A map is ranged over in the order of its
-- list of entries.
pub mod Templates
pub mod References
pub mod Status
pub mod Codes
pub mod Checks
pub mod Body
pub mod Steps
pub mod Expectations
pub mod Paths
pub mod Agreement
use ojs_conformance.Common.{
  ℕ, Text, ℤ, Bool, Option, none, some, ◌∷◌, List, [], str_eq, if◌then◌else◌,
}
use ojs_conformance.Json.{Value, Raw, Entries, end}
use ojs_conformance.JsonPath.{PathError}
use ojs_conformance.Assertions.{Mismatch}
use ojs_conformance.Schema.{StepResult, Failure}
use ojs_conformance.Timing.{TimingError}
use ojs_conformance.Runner.{Stored}

pub record Codec (Num : Type 0) : Type 0 where
  -- string(raw), and the message that a text is
  pub text_of : Raw Num → Text
  pub raw_of : Text → Raw Num
  -- json.Marshal
  pub marshal : Value Num → Text
  -- the map after json.Unmarshal of a text into a nil map[string]any
  pub parse_object : Text → Option (Entries Num)
  -- the verb %q, and the verb %v of the errors
  pub quote : Text → Text
  pub path_message : PathError → Text
  pub mismatch_message : Mismatch → Text
  pub timing_message : TimingError Num → Text
  -- the key under which http.Header has a header
  pub header_key : Text → Text

module _ {Num : Type 0} where
  -- `sr, ok := stepResults[id]`
  abbrev pub get_stored : Text → Stored Num → Option (StepResult Num)
  get_stored id [] = none
  get_stored id ((k, sr) ∷ stored) = if str_eq k id then some sr else get_stored id stored

  -- `sr.Parsed` as the argument of ResolveJSONPath: a nil map has no entries.
  abbrev pub parsed_value : StepResult Num → Value Num
  parsed_value sr = elim sr.parsed [ none ↦ Value.object end | some es ↦ Value.object es ]

abbrev pub failure : Text → Text → Text → Text → Text → Failure
failure step_id field expected actual message = record {
  step_id = step_id;
  field = field;
  expected = expected;
  actual = actual;
  message = message;
}
