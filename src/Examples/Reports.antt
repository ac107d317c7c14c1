-- ===== src/Examples/Reports.antt =====
-- The theorems on reports at two small runs: one with a failure, one with a skipped test.
use ojs_conformance.Common.{ℕ, ◌+◌, ◌≤◌, text, ℤ, pos, List, [], ◌∷◌, ◌≡◌, refl, length}
use ojs_conformance.Schema.{TestResult, Status, pass, fail, skip}
use ojs_conformance.Report.Table.{verdict_line, printf, int, str}
use ojs_conformance.Report.{build_report}
use ojs_conformance.Report.Counts.{build_report-counts}
use ojs_conformance.Report.Verdict.{NoFailure, build_report-level}

abbrev result : ℕ → Status → TestResult ℤ
result l s = record {
  test_id = text "L0-ENV-001";
  name = text "envelope";
  level = pos l;
  category = text "envelope";
  spec_ref = [];
  status = s;
  failures = [];
  step_results = [];
  file_path = [];
}

-- Level 0 passes, level 1 has a failure.
abbrev with_failure : List (TestResult ℤ)
with_failure = result 0 pass ∷ result 1 fail ∷ result 0 pass ∷ []

abbrev with_skip : List (TestResult ℤ)
with_skip = result 0 pass ∷ result 1 skip ∷ []

abbrev all_pass_run : List (TestResult ℤ)
all_pass_run = result 0 pass ∷ result 1 pass ∷ []

level_test : (build_report with_failure [] (pos 4)).conformant_level ≡ pos 0
unfolding build_report
level_test = refl

build_report-level_example : (0 ≤ 4) × NoFailure 0 with_failure
unfolding build_report
build_report-level_example = build_report-level with_failure [] (pos 4) 0 refl

build_report-counts_example :
    let s = (build_report with_failure [] (pos 4)).results in
    (s.total ≡ length with_failure) × (s.passed + s.failed + s.skipped + s.errored ≡ s.total)
build_report-counts_example = build_report-counts with_failure [] (pos 4) refl

partial_table :
    verdict_line (build_report with_failure [] (pos 4))
    ≡ printf
        (text "  Result: PARTIAL CONFORMANCE (Level %d - %s)\n")
        (int (pos 0) ∷ str (text "Core") ∷ [])
unfolding verdict_line build_report
partial_table = refl
