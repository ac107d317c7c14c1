-- ===== src/Report/Table.antt =====
-- outputTable of the two runners (runner/http/runner.go, runner/grpc/runner.go): the calls of package
-- fmt that it makes, in their order, with the formats and the arguments that it gives them. The names
-- of tests are taken to be ASCII, so that their length is a number of characters.
use ojs_conformance.Common.{
  Text, text, ℤ, pos, Bool, false, not, ◌&&◌, List, [], ◌∷◌, ◌++◌, none, some, str_eq, ltb, ltb_ℤ,
  length, take, map, all, ◌≡◌, ◌∙◌, refl, inl, inr, Bool-cases, if◌then◌else◌,
}
use ojs_conformance.Schema.{
  Status, pass, fail, skip, error, other, Failure, TestResult, LevelSummary, SuiteReport,
  level_name,
}
use ojs_conformance.Report.{LevelMap, lookup, build_report}
use ojs_conformance.Report.Counts.{is_failing, build_report-conformant}

pub data Argument : Type 0 where
  str : Text → Argument
  int : ℤ → Argument

-- A call of fmt.Println with one text, or of fmt.Printf.
pub data Line : Type 0 where
  println : Text → Line
  printf : Text → List Argument → Line

-- What the table shows of a run beside the report.
pub record Shown (Num : Type 0) : Type 0 where
  pub title : Text
  pub version : Text
  pub run_at : Text
  pub duration_ms : ℤ
  pub duration_of : TestResult Num → ℤ
  pub verbose : Bool

-- strings.Repeat("-", n) for the four columns.
abbrev dashes : List Argument
dashes =
    str (text "--------------")
    ∷ str (text "----------------------------------------")
    ∷ str (text "--------")
    ∷ str (text "----------")
    ∷ []

unfoldable pub status_label : Status → Text
status_label pass = text "PASS"
status_label fail = text "FAIL"
status_label skip = text "SKIP"
status_label error = text "ERR"
status_label (other t) = t

abbrev pub shorten : Text → Text
shorten name = if ltb 40 (length name) then take 37 name ++ text "..." else name

unfoldable pub failure_lines : Bool → List Failure → List Line
unfolding str_eq
failure_lines verbose [] = []
failure_lines verbose (f ∷ fs) =
    let more = failure_lines verbose fs in
    let details =
      printf (text "       Expected: %s\n") (str f.expected ∷ [])
      ∷ printf (text "       Actual:   %s\n") (str f.actual ∷ [])
      ∷ [] in
    printf (text "    -> [%s] %s\n") (str f.step_id ∷ str f.message ∷ [])
    ∷ ((if verbose && not (str_eq f.expected []) then details else []) ++ more)

-- A row of the level summary.
abbrev pub level_line : ℤ → LevelSummary → Line
level_line lvl ls = printf (text "  %-8d %-15s %6d %6d %6d %6d %8s\n") (
    int lvl
    ∷ str (level_name lvl)
    ∷ int (pos ls.total)
    ∷ int (pos ls.passed)
    ∷ int (pos ls.failed)
    ∷ int (pos ls.skipped)
    ∷ str (if ls.all_pass then text "PASS" else text "FAIL")
    ∷ [])

unfoldable pub level_lines : List ℤ → LevelMap → List Line
unfolding lookup level_name
level_lines [] m = []
level_lines (lvl ∷ lvls) m =
    let more = level_lines lvls m in
    elim (lookup lvl m) [ none ↦ more | some ls ↦ level_line lvl ls ∷ more ]

-- The formats of the lines with the verdict.
abbrev conformant_format : Text
conformant_format = text "  Result: CONFORMANT (Level %d - %s)\n"

abbrev partial_format : Text
partial_format = text "  Result: PARTIAL CONFORMANCE (Level %d - %s)\n"

abbrev level_heading : List Line
level_heading =
    println []
    ∷ println (text "  Level Summary:")
    ∷ printf (text "  %-8s %-15s %6s %6s %6s %6s %8s\n") (
        str (text "LEVEL")
        ∷ str (text "NAME")
        ∷ str (text "TOTAL")
        ∷ str (text "PASS")
        ∷ str (text "FAIL")
        ∷ str (text "SKIP")
        ∷ str (text "STATUS")
        ∷ [])
    ∷ printf (text "  %-8s %-15s %6s %6s %6s %6s %8s\n") (
        str (text "-----")
        ∷ str (text "----")
        ∷ str (text "-----")
        ∷ str (text "----")
        ∷ str (text "----")
        ∷ str (text "----")
        ∷ str (text "------")
        ∷ [])
    ∷ []

says_conformant : Line → Bool
unfolding str_eq
says_conformant (println t) = false
says_conformant (printf format arguments) = str_eq format conformant_format

module _ {Num : Type 0} where
  abbrev pub result_lines : Shown Num → TestResult Num → List Line
  unfolding status_label failure_lines
  result_lines s r =
      printf (text "  %-14s %-40s %-8s %dms\n") (
        str r.test_id
        ∷ str (shorten r.name)
        ∷ str (status_label r.status)
        ∷ int (s.duration_of r)
        ∷ [])
      ∷ (if is_failing r.status then failure_lines s.verbose r.failures else [])

  unfoldable pub results_lines : Shown Num → List (TestResult Num) → List Line
  unfolding status_label failure_lines
  results_lines s [] = []
  results_lines s (r ∷ rs) = result_lines s r ++ results_lines s rs

  -- The line with the verdict.
  unfoldable pub verdict_line : SuiteReport Num → Line
  unfolding level_name
  verdict_line report =
      let level = int report.conformant_level ∷ str (level_name report.conformant_level) ∷ [] in
      if report.conformant
      then printf conformant_format level
      else if ltb_ℤ report.conformant_level (pos 0)
      then println (text "  Result: NOT CONFORMANT")
      else printf partial_format level

  abbrev pub failed_line : TestResult Num → Line
  failed_line f =
      printf (text "    - %s: %s [%s]\n") (str f.test_id ∷ str f.name ∷ str f.spec_ref ∷ [])

  -- The details on the failed tests.
  unfoldable pub failed_lines : List (TestResult Num) → List Line
  failed_lines [] = []
  failed_lines (f ∷ fs) =
      printf (text "  Failed Tests (%d):\n") (int (pos (length (f ∷ fs))) ∷ [])
      ∷ (map failed_line (f ∷ fs) ++ println [] ∷ [])

  abbrev heading : Shown Num → SuiteReport Num → List Line
  heading s report =
      println []
      ∷ println (text "========================================")
      ∷ println s.title
      ∷ println (text "========================================")
      ∷ printf (text "  Target:    %s\n") (str report.target ∷ [])
      ∷ printf (text "  Suite:     v%s\n") (str s.version ∷ [])
      ∷ printf (text "  Run at:    %s\n") (str s.run_at ∷ [])
      ∷ printf (text "  Duration:  %dms\n") (int s.duration_ms ∷ [])
      ∷ println (text "----------------------------------------")
      ∷ println []
      ∷ printf (text "  %-14s %-40s %-8s %s\n") (
          str (text "TEST ID")
          ∷ str (text "NAME")
          ∷ str (text "STATUS")
          ∷ str (text "DURATION")
          ∷ [])
      ∷ printf (text "  %-14s %-40s %-8s %s\n") dashes
      ∷ []

  abbrev totals : SuiteReport Num → List Line
  totals report =
      println []
      ∷ println (text "  ----------------------------------------")
      ∷ printf (text "  Total: %d | Passed: %d | Failed: %d | Skipped: %d | Errored: %d\n") (
          int (pos report.results.total)
          ∷ int (pos report.results.passed)
          ∷ int (pos report.results.failed)
          ∷ int (pos report.results.skipped)
          ∷ int (pos report.results.errored)
          ∷ [])
      ∷ []

  -- outputTable
  unfoldable pub output_table : Shown Num → SuiteReport Num → List (TestResult Num) → List Line
  unfolding results_lines level_lines verdict_line failed_lines
  output_table s report results =
      heading s report
      ++ (results_lines s results
          ++ (level_heading
              ++ (level_lines (pos 0 ∷ pos 1 ∷ pos 2 ∷ pos 3 ∷ pos 4 ∷ []) report.results.by_level
                  ++ (totals report
                      ++ (verdict_line report
                          ∷ println (text "========================================")
                          ∷ println []
                          ∷ failed_lines report.failures)))))

  conformant_flag :
      (report : SuiteReport Num) → says_conformant (verdict_line report) ≡ report.conformant
  unfolding verdict_line says_conformant str_eq
  conformant_flag report = elim (Bool-cases report.conformant) [
    | inl e ↦ rw (e, verdict_line) refl
    | inr e ↦ elim (Bool-cases (ltb_ℤ report.conformant_level (pos 0))) [
      | inl f ↦ rw (e, f, verdict_line) refl
      | inr f ↦ rw (e, f, verdict_line) refl
    ]
  ]

  -- The table says CONFORMANT exactly if no result has the status "fail" or "error".
  verdict_line-says_conformant :
      (rs : List (TestResult Num)) (target : Text) (level : ℤ)
      → says_conformant (verdict_line (build_report rs target level))
        ≡ all (λ r. not (is_failing r.status)) rs
  verdict_line-says_conformant rs target level =
      conformant_flag (build_report rs target level) ∙ build_report-conformant rs target level
