-- ===== src/Schema.antt =====
-- lib/schema.go: the test cases, the results and the report. A json.RawMessage is a `Raw`; an absent
-- one (Go's nil) is `none`. Of SuiteReport the fields that buildReport computes are here; commit,
-- environment, backend and submitter are records of the run that nothing reads.
pub mod Headers
pub mod Levels
use ojs_conformance.Common.{
  ℕ, Text, text, ℤ, pos, Bool, true, false, List, [], ◌∷◌, Option, none, some, str_eq, atoi, eq_ℤ,
  if◌then◌else◌, ◌||◌,
}
use ojs_conformance.Json.{Raw, Value, Entries}
use ojs_conformance.Json.Unmarshal.{unmarshal_int, unmarshal_string, unmarshal_object, get_field}

pub record TimingAssertion : Type 0 where
  pub less_than : Option ℤ
  pub greater_than : Option ℤ
  pub approximate : Option ℤ

pub record Assertions (Num : Type 0) : Type 0 where
  pub status : Option (Raw Num)
  pub status_in : List ℤ
  -- nil or a map
  pub body : Option (List (Text × Raw Num))
  pub body_absent : List Text
  pub headers : Option (Raw Num)
  pub timing_ms : Option TimingAssertion
  pub body_contains : List Text

pub record Step (Num : Type 0) : Type 0 where
  pub id : Text
  pub action : Text
  pub path : Text
  pub headers : List (Text × Text)
  pub body : Option Text
  pub delay_ms : ℤ
  pub duration_ms : ℤ
  pub assertions : Option (Assertions Num)
  pub parallel_with : Text

pub record TestCase (Num : Type 0) : Type 0 where
  pub test_id : Text
  pub level : Option (Raw Num)
  pub category : Text
  pub name : Text
  pub spec_ref : Text
  -- the steps of setup and teardown, where these are there
  pub setup : Option (List (Step Num))
  pub steps : List (Step Num)
  pub teardown : Option (List (Step Num))
  pub file_path : Text
  pub level_int : ℤ

pub record Failure : Type 0 where
  pub step_id : Text
  pub field : Text
  pub expected : Text
  pub actual : Text
  pub message : Text

pub record StepResult (Num : Type 0) : Type 0 where
  pub step_id : Text
  pub status_code : ℤ
  pub headers : List (Text × Text)
  pub body : Text
  pub duration_ms : ℤ
  -- the parsed body; none is Go's nil map
  pub parsed : Option (Entries Num)

-- The string that TestResult.Status holds.
pub data Status : Type 0 where
  pass fail skip error : Status
  other : Text → Status

pub record TestResult (Num : Type 0) : Type 0 where
  pub test_id : Text
  pub name : Text
  pub level : ℤ
  pub category : Text
  pub spec_ref : Text
  pub status : Status
  pub failures : List Failure
  pub step_results : List (StepResult Num)
  pub file_path : Text

pub record LevelSummary : Type 0 where
  pub total : ℕ
  pub passed : ℕ
  pub failed : ℕ
  pub skipped : ℕ
  pub errored : ℕ
  pub all_pass : Bool

pub record ResultsSummary : Type 0 where
  pub total : ℕ
  pub passed : ℕ
  pub failed : ℕ
  pub skipped : ℕ
  pub errored : ℕ
  pub by_level : List (ℤ × LevelSummary)

pub record SuiteReport (Num : Type 0) : Type 0 where
  pub target : Text
  pub requested_level : ℤ
  pub results : ResultsSummary
  pub conformant : Bool
  pub conformant_level : ℤ
  pub failures : List (TestResult Num)
  pub skipped : List (TestResult Num)

-- LevelName
unfoldable pub level_name : ℤ → Text
level_name level =
    if eq_ℤ level (pos 0)
    then text "Core"
    else if eq_ℤ level (pos 1)
    then text "Reliable"
    else if eq_ℤ level (pos 2)
    then text "Scheduled"
    else if eq_ℤ level (pos 3)
    then text "Orchestration"
    else if eq_ℤ level (pos 4)
    then text "Advanced"
    else text "Unknown"

-- The level of a string; 99 for the extension suites.
level_of_string : Text → Option ℤ
unfolding str_eq atoi
level_of_string str =
    if str_eq str (text "ext") || str_eq str (text "extension") then some (pos 99) else atoi str

module _ {Num : Type 0} where
  -- TestCase.ParseLevel: the new test case and the level, or none for an error.
  unfoldable pub parse_level : TestCase Num → Option (TestCase Num × ℤ)
  unfolding level_of_string
  parse_level tc = elim tc.level [
    | none ↦ some (tc, pos 0)
    | some raw ↦ elim (unmarshal_int raw) [
      | some n ↦ some (record tc { level_int = n }, n)
      | none ↦ elim (unmarshal_string raw) [
        | none ↦ none
        | some str ↦ elim (level_of_string str) [
          | none ↦ none
          | some n ↦ some (record tc { level_int = n }, n)
        ]
      ]
    ]
  ]
