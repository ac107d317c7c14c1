-- ===== src/Report/Grpc.antt =====
-- buildReport of the gRPC runner (runner/grpc/runner.go), which counts and judges in another way than
-- the HTTP runner: any other status is a failure, a level passes when all of its results do, and a
-- level without results ends the loop.
use ojs_conformance.Common.{
  ℕ, ◌+◌, ◌≤◌, Text, ℤ, pos, negsuc, Bool, true, false, not, ◌&&◌, List, [], ◌∷◌, ◌++◌, none, some,
  ◌≡◌, refl, sym, ◌∙◌, arith, ◌==◌, ltb, if◌then◌else◌, length, all, any, ◌||◌, &&_iff,
}
use ojs_conformance.Schema.{
  TestResult, Status, pass, skip, error, LevelSummary, ResultsSummary, SuiteReport,
}
use ojs_conformance.Report.{
  LevelMap, lookup, level_or_zero, insert, Tally, start, levels, build_report,
}
use ojs_conformance.Report.Counts.{is_failing, build_report-conformant}

abbrev passes_all : LevelSummary → Bool
passes_all s = ltb 0 s.total && (s.passed == s.total)

-- The counters of one level; AllPass is kept up to date.
grpc_count_level : Status → LevelSummary → LevelSummary
grpc_count_level st s =
    let c = bump st (record s { total = s.total + 1 }) in record c { all_pass = passes_all c }
  where
    bump : Status → LevelSummary → LevelSummary
    bump pass c = record c { passed = c.passed + 1 }
    bump skip c = record c { skipped = c.skipped + 1 }
    bump error c = record c { errored = c.errored + 1 }
    bump _ c = record c { failed = c.failed + 1 }

grpc_count_summary : Status → ResultsSummary → ResultsSummary
grpc_count_summary pass s = record s { total = s.total + 1; passed = s.passed + 1 }
grpc_count_summary skip s = record s { total = s.total + 1; skipped = s.skipped + 1 }
grpc_count_summary error s = record s { total = s.total + 1; errored = s.errored + 1 }
grpc_count_summary _ s = record s { total = s.total + 1; failed = s.failed + 1 }

module _ {Num : Type 0} where
  abbrev grpc_add_failure : Status → TestResult Num → List (TestResult Num) → List (TestResult Num)
  grpc_add_failure pass r rs = rs
  grpc_add_failure skip r rs = rs
  grpc_add_failure _ r rs = rs ++ r ∷ []

  abbrev grpc_add_skipped : Status → TestResult Num → List (TestResult Num) → List (TestResult Num)
  grpc_add_skipped skip r rs = rs ++ r ∷ []
  grpc_add_skipped _ r rs = rs

  unfoldable pub grpc_count_result : TestResult Num → Tally Num → Tally Num
  unfolding grpc_count_level grpc_count_summary
  grpc_count_result r t =
      let s = grpc_count_summary r.status t.summary in
      let m = t.summary.by_level in
      let entry = grpc_count_level r.status (level_or_zero (lookup r.level m)) in
      record {
        summary = record s { by_level = insert r.level entry m };
        failures = grpc_add_failure r.status r t.failures;
        skipped = grpc_add_skipped r.status r t.skipped;
      }

  unfoldable pub grpc_count_results : List (TestResult Num) → Tally Num → Tally Num
  unfolding grpc_count_result
  grpc_count_results [] t = t
  grpc_count_results (r ∷ rs) t = grpc_count_results rs (grpc_count_result r t)

-- The loop over the levels: it ends at the first that is missing or that does not pass.
unfoldable pub grpc_level_loop : List ℕ → LevelMap → ℤ → ℤ
grpc_level_loop [] m found = found
grpc_level_loop (l ∷ ls) m found = elim (lookup (pos l) m) [
  | none ↦ found
  | some s ↦ let on = grpc_level_loop ls m (pos l) in if s.all_pass then on else found
]

unfoldable pub grpc_build_report :
    {Num : Type 0} → List (TestResult Num) → Text → ℤ → SuiteReport Num
unfolding grpc_count_results grpc_level_loop lookup insert
grpc_build_report results target requested_level =
    let t =
      grpc_count_results results (record { summary = start 0; failures = []; skipped = [] }) in
    let s = t.summary in
    record {
      target = target;
      requested_level = requested_level;
      results = s;
      conformant = ltb 0 s.total && (s.passed == s.total);
      conformant_level = grpc_level_loop levels s.by_level (negsuc 0);
      failures = t.failures;
      skipped = t.skipped;
    }

abbrev pub is_pass : Status → Bool
is_pass pass = true
is_pass _ = false

abbrev pub is_skip : Status → Bool
is_skip skip = true
is_skip _ = false

module _ {Num : Type 0} where
  -- The total counts every result, and the passes are at most that many.
  record GrpcCounted (rs : List (TestResult Num)) (s t : ResultsSummary) : Type 0 where
    total : t.total ≡ s.total + length rs
    at_most : t.passed ≤ s.passed + length rs
    all_passed : (t.passed == s.passed + length rs) ≡ all (λ r. is_pass r.status) rs

  grpc_count_results-Counted :
      (rs : List (TestResult Num)) (t : Tally Num)
      → GrpcCounted rs t.summary (grpc_count_results rs t).summary
  unfolding grpc_count_results grpc_count_summary
  grpc_count_results-Counted [] t = record {
    total = omega arith;
    at_most = omega arith;
    all_passed = ground arith;
  }
  grpc_count_results-Counted (r ∷ rs) t =
      let rest = grpc_count_results-Counted rs (grpc_count_result r t) in ground arith

  -- The gRPC report is conformant exactly when there is a result and every result has the status
  -- "pass".
  pub grpc_build_report-conformant :
      (rs : List (TestResult Num)) (target : Text) (level : ℤ)
      → (grpc_build_report rs target level).conformant
        ≡ (ltb 0 (length rs) && all (λ r. is_pass r.status) rs)
  unfolding grpc_build_report
  grpc_build_report-conformant rs target level =
      let c =
        grpc_count_results-Counted rs (record { summary = start 0; failures = []; skipped = [] }) in
      ground (arith, c.total, c.all_passed)

  all-pass_not_failing :
      (rs : List (TestResult Num))
      → all (λ r. is_pass r.status) rs ≡ true
      → all (λ r. not (is_failing r.status)) rs ≡ true
  all-pass_not_failing [] h = refl
  all-pass_not_failing (r ∷ rs) h = ground (arith, all-pass_not_failing rs)

  -- Where the gRPC runner calls the results conformant, so does the HTTP runner.
  pub conformant_of_grpc :
      (rs : List (TestResult Num)) (target : Text) (level : ℤ)
      → (grpc_build_report rs target level).conformant ≡ true
      → (build_report rs target level).conformant ≡ true
  conformant_of_grpc rs target level h =
      build_report-conformant rs target level
      ∙ all-pass_not_failing rs
          (((&&_iff _ _).0 (sym (grpc_build_report-conformant rs target level) ∙ h)).1)

  skips :
      (rs : List (TestResult Num))
      → all (λ r. is_pass r.status || is_skip r.status) rs ≡ true
      → any (λ r. is_skip r.status) rs ≡ true
      → (all (λ r. not (is_failing r.status)) rs ≡ true) × (all (λ r. is_pass r.status) rs ≡ false)
  skips rs h k = (no_failure rs h, not_all rs k)
    where
      no_failure :
          (rs : List (TestResult Num))
          → all (λ r. is_pass r.status || is_skip r.status) rs ≡ true
          → all (λ r. not (is_failing r.status)) rs ≡ true
      no_failure [] h = refl
      no_failure (r ∷ rs) h = ground (arith, no_failure rs)

      not_all :
          (rs : List (TestResult Num))
          → any (λ r. is_skip r.status) rs ≡ true
          → all (λ r. is_pass r.status) rs ≡ false
      not_all [] h = cc
      not_all (r ∷ rs) h = ground (arith, not_all rs)

  -- Where every result passed or was skipped, and one was skipped, the HTTP runner reports
  -- conformance and the gRPC runner does not.
  pub conformant_skipped :
      (rs : List (TestResult Num)) (target : Text) (level : ℤ)
      → all (λ r. is_pass r.status || is_skip r.status) rs ≡ true
      → any (λ r. is_skip r.status) rs ≡ true
      → ((build_report rs target level).conformant ≡ true)
        × ((grpc_build_report rs target level).conformant ≡ false)
  conformant_skipped rs target level h k =
      let both = skips rs h k in
      (
        build_report-conformant rs target level ∙ both.0,
        grpc_build_report-conformant rs target level ∙ ground (arith, both.1),
      )
