-- ===== src/Report.antt =====
-- buildReport of the HTTP runner (runner/http/runner.go): the counts, the lists of failures and the
-- conformance level. The map ByLevel is a list of entries, one for each level.
pub mod Counts
pub mod Verdict
pub mod Grpc
pub mod Table
use ojs_conformance.Common.{
  ℕ, suc, ◌+◌, Text, ℤ, pos, negsuc, Bool, true, false, ◌&&◌, List, [], ◌∷◌, ◌++◌, Option, none,
  some, ◌==◌, ltb, eq_ℤ, if◌then◌else◌, length,
}
use ojs_conformance.Schema.{
  TestResult, Status, pass, fail, skip, error, other, LevelSummary, ResultsSummary, SuiteReport,
}

abbrev pub LevelMap : Type 0
LevelMap = List (ℤ × LevelSummary)

-- The zero value of a LevelSummary.
abbrev pub no_results : LevelSummary
no_results = record {
  total = 0;
  passed = 0;
  failed = 0;
  skipped = 0;
  errored = 0;
  all_pass = false;
}

-- `ls, exists := ByLevel[level]`
unfoldable pub lookup : ℤ → LevelMap → Option LevelSummary
lookup l [] = none
lookup l ((k, s) ∷ m) = if eq_ℤ k l then some s else lookup l m

-- `ByLevel[level]`
abbrev pub level_or_zero : Option LevelSummary → LevelSummary
level_or_zero none = no_results
level_or_zero (some s) = s

-- `ByLevel[level] = ls`
unfoldable pub insert : ℤ → LevelSummary → LevelMap → LevelMap
insert l s [] = (l, s) ∷ []
insert l s ((k, t) ∷ m) = if eq_ℤ k l then (k, s) ∷ m else (k, t) ∷ insert l s m

-- The counters of one level after a result of this status.
unfoldable pub count_level : Status → LevelSummary → LevelSummary
count_level pass s = record s { total = s.total + 1; passed = s.passed + 1 }
count_level fail s = record s { total = s.total + 1; failed = s.failed + 1 }
count_level skip s = record s { total = s.total + 1; skipped = s.skipped + 1 }
count_level error s = record s { total = s.total + 1; errored = s.errored + 1 }
count_level (other t) s = record s { total = s.total + 1 }

-- What the loop over the results changes.
pub record Tally (Num : Type 0) : Type 0 where
  pub summary : ResultsSummary
  pub failures : List (TestResult Num)
  pub skipped : List (TestResult Num)

abbrev pub start : ℕ → ResultsSummary
start n = record { total = n; passed = 0; failed = 0; skipped = 0; errored = 0; by_level = [] }

-- `ByLevel[r.Level]`, counted
abbrev pub counted : ℤ → Status → LevelMap → LevelMap
counted l st m = insert l (count_level st (level_or_zero (lookup l m))) m

-- The counters of the summary after a result of this status.
unfoldable pub count_summary : Status → ResultsSummary → ResultsSummary
count_summary pass s = record s { passed = s.passed + 1 }
count_summary fail s = record s { failed = s.failed + 1 }
count_summary skip s = record s { skipped = s.skipped + 1 }
count_summary error s = record s { errored = s.errored + 1 }
count_summary (other t) s = s

module _ {Num : Type 0} where
  -- `report.Failures`, appended to for a failure and for an error.
  abbrev pub add_failure : Status → TestResult Num → List (TestResult Num) → List (TestResult Num)
  add_failure fail r rs = rs ++ r ∷ []
  add_failure error r rs = rs ++ r ∷ []
  add_failure _ r rs = rs

  abbrev pub add_skipped : Status → TestResult Num → List (TestResult Num) → List (TestResult Num)
  add_skipped skip r rs = rs ++ r ∷ []
  add_skipped _ r rs = rs

  -- One round of the loop over the results.
  unfoldable pub count_result : TestResult Num → Tally Num → Tally Num
  unfolding count_level count_summary
  count_result r t =
      let s = count_summary r.status t.summary in
      record {
        summary = record s { by_level = counted r.level r.status (t.summary.by_level) };
        failures = add_failure r.status r t.failures;
        skipped = add_skipped r.status r t.skipped;
      }

  unfoldable pub count_results : List (TestResult Num) → Tally Num → Tally Num
  unfolding count_result
  count_results [] t = t
  count_results (r ∷ rs) t = count_results rs (count_result r t)

-- `ls.Failed == 0 && ls.Errored == 0`
abbrev pub is_clean : LevelSummary → Bool
is_clean s = s.failed == 0 && s.errored == 0

abbrev pub levels : List ℕ
levels = 0 ∷ 1 ∷ 2 ∷ 3 ∷ 4 ∷ []

-- The loop that determines the conformance level, from the level found so far.
unfoldable pub level_loop : List ℕ → LevelMap → ℤ → LevelMap × ℤ
unfolding lookup insert
level_loop [] m found = (m, found)
level_loop (l ∷ ls) m found = elim (lookup (pos l) m) [
  | none ↦ level_loop ls m found
  | some s ↦
      let m' = insert (pos l) (record s { all_pass = is_clean s }) m in
      let on = level_loop ls m' (pos l) in if is_clean s && ltb 0 s.total then on else (m', found)
]

-- buildReport; the time, the duration and the environment are left out.
unfoldable pub build_report : {Num : Type 0} → List (TestResult Num) → Text → ℤ → SuiteReport Num
unfolding count_results level_loop
build_report results target requested_level =
    let t =
      count_results results
        (record { summary = start (length results); failures = []; skipped = [] }) in
    let found = level_loop levels (t.summary.by_level) (negsuc 0) in
    record {
      target = target;
      requested_level = requested_level;
      results = record (t.summary) { by_level = found.0 };
      conformant = t.summary.failed == 0 && t.summary.errored == 0;
      conformant_level = found.1;
      failures = t.failures;
      skipped = t.skipped;
    }
