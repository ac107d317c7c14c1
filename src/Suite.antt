-- ===== src/Suite.antt =====
-- main and loadTests of the two runners (runner/http/runner.go, runner/grpc/runner.go and main.go):
-- from the flags to the exit code. The file system, Redis, the server under test and the writing of
-- the report are fields of `Environment`; what is printed is left out.
pub mod Results
pub mod Exit
use ojs_conformance.Common.{
  ℕ, Text, text, ℤ, Bool, List, [], ◌∷◌, ◌++◌, Option, none, some, ◌⊎◌, inl, inr, ◌==◌, not, ◌||◌,
  reverse, str_eq, has_suffix, if◌then◌else◌,
}
use ojs_conformance.Schema.{Step, TestCase, TestResult, SuiteReport, parse_level}
use ojs_conformance.Runner.{Exchange, filter_tests, run_test, collect_group, grpc_collect_group}
use ojs_conformance.Report.{build_report}
use ojs_conformance.Report.Grpc.{grpc_build_report}

-- What filepath.Walk hands over, and what os.ReadFile and json.Unmarshal make of it.
pub data Found (Num : Type 0) : Type 0 where
  walk_error : Text → Found Num
  directory : Found Num
  not_read : Text → Found Num
  not_parsed : Text → Found Num
  parsed : TestCase Num → Found Num

pub record Flags : Type 0 where
  pub url : Text
  pub level : ℤ
  pub category : Text
  pub test_id : Text
  pub redis_url : Text
  pub report_file : Text

pub record Environment (Num : Type 0) : Type 0 where
  -- the variable OJS_TEST_URL
  pub test_url : Text
  -- the paths below the directory of the suites, in the order of the walk
  pub files : List (Text × Found Num)
  -- sort.Slice by the test id
  pub sort : List (TestCase Num) → List (TestCase Num)
  -- the error of NewOJSClient for an address
  pub connect : Text → Option Text
  -- the error of redis.ParseURL or of Ping
  pub redis : Text → Option Text
  -- the steps of a test against a server at an address, after the tests before it and the resets
  pub exchange : Text → List (TestCase Num) → TestCase Num → Exchange Num
  -- the error of lib.WriteReportFile
  pub write_report : Text → SuiteReport Num → Option Text

-- strings.TrimRight(s, "/")
unfoldable pub drop_slashes : Text → Text
drop_slashes [] = []
drop_slashes (c ∷ cs) = let rest = drop_slashes cs in if c == b'/' then rest else c ∷ cs

abbrev pub trim_slashes : Text → Text
unfolding drop_slashes
trim_slashes s = reverse (drop_slashes (reverse s))

-- The flag, the variable or the default, the first that is not empty.
abbrev pub first_set : Text → Text → Text → Text
first_set [] [] default = default
first_set [] (c ∷ cs) default = c ∷ cs
first_set (c ∷ cs) variable default = c ∷ cs

module _ {Num : Type 0} where
  -- The function that loadTests gives to filepath.Walk, over all paths; an error ends the walk.
  unfoldable pub walk_files : List (Text × Found Num) → Text ⊎ List (TestCase Num)
  unfolding has_suffix parse_level
  walk_files [] = inr []
  walk_files ((path, walk_error e) ∷ files) = inl e
  walk_files ((path, directory) ∷ files) = walk_files files
  walk_files ((path, not_read e) ∷ files) =
      let rest = walk_files files in
      if has_suffix path (text ".json")
      then inl (text "reading " ++ (path ++ (text ": " ++ e)))
      else rest
  walk_files ((path, not_parsed e) ∷ files) =
      let rest = walk_files files in
      if has_suffix path (text ".json")
      then inl (text "parsing " ++ (path ++ (text ": " ++ e)))
      else rest
  walk_files ((path, parsed tc) ∷ files) =
      let rest = walk_files files in
      if has_suffix path (text ".json")
      then elim (parse_level (record tc { file_path = path })) [
        | none ↦ inl (text "parsing " ++ (path ++ text ": level"))
        | some (tc', level) ↦ elim rest [ inl e ↦ inl e | inr tests ↦ inr (tc' ∷ tests) ]
      ]
      else rest

  module _ (E : Environment Num) where
    -- loadTests
    unfoldable pub load_tests : Text ⊎ List (TestCase Num)
    unfolding walk_files
    load_tests = elim (walk_files E.files) [ inl e ↦ inl e | inr tests ↦ inr (E.sort tests) ]

    -- The loop over the tests, behind those that were run before.
    unfoldable pub run_tests :
        (Text → List Text → List (Step Num) → List (Step Num) → List (Step Num))
        → Text
        → List (TestCase Num)
        → List (TestCase Num)
        → List (TestResult Num)
    unfolding run_test
    run_tests collect url before [] = []
    run_tests collect url before (tc ∷ tests) =
        run_test (E.exchange url before tc) collect tc
        ∷ run_tests collect url (before ++ tc ∷ []) tests

    abbrev pub redis_error : Text → Option Text
    redis_error [] = none
    redis_error (c ∷ cs) = E.redis (c ∷ cs)

    abbrev pub report_error : Text → SuiteReport Num → Option Text
    report_error [] report = none
    report_error (c ∷ cs) report = E.write_report (c ∷ cs) report

    -- The end of main.
    abbrev pub exit_code : Flags → SuiteReport Num → ℕ
    exit_code flags report = elim (report_error flags.report_file report) [
      | some e ↦ 2
      | none ↦ if report.conformant then 0 else 1
    ]

    -- main behind the choice of the tests, given what is done with them.
    abbrev pub with_selected : Flags → (List (TestCase Num) → ℕ) → List (TestCase Num) → ℕ
    with_selected flags run [] = 2
    with_selected flags run (tc ∷ tests) = elim (redis_error flags.redis_url) [
      | some e ↦ 2
      | none ↦ run (tc ∷ tests)
    ]

    -- main behind loadTests
    abbrev pub with_loaded : Flags → (List (TestCase Num) → ℕ) → Text ⊎ List (TestCase Num) → ℕ
    with_loaded flags run (inl e) = 2
    with_loaded flags run (inr tests) =
        with_selected flags run (filter_tests tests flags.level flags.category flags.test_id)

    abbrev pub with_tests : Flags → (List (TestCase Num) → ℕ) → ℕ
    with_tests flags run = with_loaded flags run load_tests

    abbrev pub base_url : Flags → Text
    base_url flags = trim_slashes (first_set flags.url E.test_url (text "http://localhost:8080"))

    -- main of runner/http/runner.go
    unfoldable pub http_main : Flags → ℕ
    unfolding load_tests filter_tests run_tests build_report drop_slashes
    http_main flags =
        let url = base_url flags in
        with_tests flags (λ tests.
          exit_code flags (build_report (run_tests collect_group url [] tests) url flags.level))

    abbrev pub grpc_addr : Flags → Text
    grpc_addr flags = first_set flags.url E.test_url (text "localhost:9090")

    -- main of runner/grpc/main.go
    unfoldable pub grpc_main : Flags → ℕ
    unfolding load_tests filter_tests run_tests grpc_build_report
    grpc_main flags =
        let addr = grpc_addr flags in
        elim (E.connect addr) [
          | some e ↦ 2
          | none ↦ with_tests flags (λ tests. exit_code flags (
              grpc_build_report (run_tests grpc_collect_group addr [] tests)
                (text "grpc://" ++ addr) flags.level))
        ]
