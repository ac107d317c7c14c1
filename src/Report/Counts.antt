-- ===== src/Report/Counts.antt =====
-- What the counters of the report say of the results.
use ojs_conformance.Common.{
  ℕ, ◌+◌, Text, ℤ, Bool, true, false, not, ◌&&◌, List, [], ◌∷◌, ◌++◌, some, ◌≡◌, refl, sym, ap, ◌∙◌,
  arith, ◌==◌, eq_ℤ, eq_ℤ_iff, if◌then◌else◌, length, all, append-nil, append_assoc,
}
use ojs_conformance.Schema.{TestResult, Status, fail, error, other, LevelSummary, ResultsSummary}
use ojs_conformance.Report.{
  LevelMap, lookup, level_or_zero, insert, count_level, Tally, start, count_result, count_results,
  build_report,
}

-- A result that the report counts against conformance.
abbrev pub is_failing : Status → Bool
is_failing fail = true
is_failing error = true
is_failing _ = false

abbrev pub is_known : Status → Bool
is_known (other t) = false
is_known _ = true

pub lookup-insert :
    (k l : ℤ) (s : LevelSummary) (m : LevelMap)
    → lookup k (insert l s m) ≡ (if eq_ℤ l k then some s else lookup k m)
unfolding lookup insert
lookup-insert k l s [] = refl
lookup-insert k l s ((j, t) ∷ m) =
    ground (arith, eq_ℤ_iff l k, eq_ℤ_iff j l, eq_ℤ_iff j k, lookup-insert k l s m)

zero_sum : (a b : ℕ) {n : ℕ} → a + b ≡ n → ((a == 0) && (b == 0)) ≡ (n == 0)
zero_sum a b h = ground arith

module _ {Num : Type 0} where
  -- How many of the results have a status, and how many at a level.
  abbrev pub number : (Status → Bool) → List (TestResult Num) → ℕ
  number p [] = 0
  number p (r ∷ rs) = (if p r.status then 1 else 0) + number p rs

  abbrev pub number_at : ℤ → (Status → Bool) → List (TestResult Num) → ℕ
  number_at l p [] = 0
  number_at l p (r ∷ rs) = (if eq_ℤ r.level l && p r.status then 1 else 0) + number_at l p rs

  abbrev pub failing : List (TestResult Num) → List (TestResult Num)
  failing [] = []
  failing (r ∷ rs) = if is_failing r.status then r ∷ failing rs else failing rs

  -- The five counters of a summary, as sums over the results counted.
  pub record Counted (rs : List (TestResult Num)) (s t : ResultsSummary) : Type 0 where
    pub total : t.total ≡ s.total
    pub bad : t.failed + t.errored ≡ s.failed + s.errored + number is_failing rs
    pub known :
        t.passed + t.failed + t.skipped + t.errored
        ≡ s.passed + s.failed + s.skipped + s.errored + number is_known rs

  count_result-Counted :
      (r : TestResult Num) (t : Tally Num) → Counted (r ∷ []) t.summary (count_result r t).summary
  unfolding count_result
  count_result-Counted r t = ground arith

  count_results-Counted :
      (rs : List (TestResult Num)) (t : Tally Num)
      → Counted rs t.summary (count_results rs t).summary
  unfolding count_results
  count_results-Counted [] t = omega arith
  count_results-Counted (r ∷ rs) t =
      omega (arith, count_result-Counted r t, count_results-Counted rs (count_result r t))

  count_result-failures :
      (r : TestResult Num) (t : Tally Num)
      → (count_result r t).failures ≡ t.failures ++ failing (r ∷ [])
  unfolding count_result
  count_result-failures r t = ground (arith, append-nil t.failures)

  failing-cons :
      (r : TestResult Num) (rs : List (TestResult Num))
      → failing (r ∷ []) ++ failing rs ≡ failing (r ∷ rs)
  failing-cons r rs = ground arith

  count_results-failures :
      (rs : List (TestResult Num)) (t : Tally Num)
      → (count_results rs t).failures ≡ t.failures ++ failing rs
  unfolding count_results
  count_results-failures [] t = sym (append-nil t.failures)
  count_results-failures (r ∷ rs) t =
      count_results-failures rs (count_result r t)
      ∙ ap (λ fs. fs ++ failing rs) (count_result-failures r t)
      ∙ append_assoc t.failures (failing (r ∷ [])) (failing rs)
      ∙ ap (◌++◌ t.failures) (failing-cons r rs)

  -- The entry of a level.
  abbrev pub at_level : ℤ → Tally Num → LevelSummary
  at_level l t = level_or_zero (lookup l (t.summary.by_level))

  count_result-level :
      (l : ℤ) (r : TestResult Num) (t : Tally Num)
      → (at_level l (count_result r t)).failed + (at_level l (count_result r t)).errored
        ≡ (at_level l t).failed + (at_level l t).errored + number_at l is_failing (r ∷ [])
  unfolding count_result
  count_result-level l r t = ground (
    arith,
    eq_ℤ_iff r.level l,
    lookup-insert l r.level
        (count_level r.status (level_or_zero (lookup r.level (t.summary.by_level))))
        (t.summary.by_level),
  )

  pub count_results-level :
      (l : ℤ) (rs : List (TestResult Num)) (t : Tally Num)
      → (at_level l (count_results rs t)).failed + (at_level l (count_results rs t)).errored
        ≡ (at_level l t).failed + (at_level l t).errored + number_at l is_failing rs
  unfolding count_results
  count_results-level l [] t = omega arith
  count_results-level l (r ∷ rs) t =
      omega (arith, count_result-level l r t, count_results-level l rs (count_result r t))

  -- The tally that buildReport starts from, and the one that it ends with.
  abbrev pub before : List (TestResult Num) → Tally Num
  before rs = record { summary = start (length rs); failures = []; skipped = [] }

  abbrev pub after : List (TestResult Num) → Tally Num
  after rs = count_results rs (before rs)

  number-all :
      (rs : List (TestResult Num))
      → (number is_failing rs == 0) ≡ all (λ r. not (is_failing r.status)) rs
  number-all [] = refl
  number-all (r ∷ rs) = ground (arith, number-all rs)

  number-length :
      (rs : List (TestResult Num))
      → all (λ r. is_known r.status) rs ≡ true
      → number is_known rs ≡ length rs
  number-length [] h = refl
  number-length (r ∷ rs) h = ground (arith, number-length rs)

  -- The report is conformant exactly when no result has the status "fail" or "error".
  pub build_report-conformant :
      (rs : List (TestResult Num)) (target : Text) (level : ℤ)
      → (build_report rs target level).conformant ≡ all (λ r. not (is_failing r.status)) rs
  unfolding build_report
  build_report-conformant rs target level =
      let s = (after rs).summary in
      let bad : s.failed + s.errored ≡ number is_failing rs =
        omega (arith, (count_results-Counted rs (before rs)).bad) in
      zero_sum s.failed s.errored bad ∙ number-all rs

  -- The report lists the results with the status "fail" or "error", all of them and in their order.
  pub build_report-failures :
      (rs : List (TestResult Num)) (target : Text) (level : ℤ)
      → (build_report rs target level).failures ≡ failing rs
  unfolding build_report
  build_report-failures rs target level = count_results-failures rs (before rs)

  -- Where every status is one of the four, the four counters add up to the number of results, which
  -- is also the total.
  pub build_report-counts :
      (rs : List (TestResult Num)) (target : Text) (level : ℤ)
      → all (λ r. is_known r.status) rs ≡ true
      → let s = (build_report rs target level).results in
        (s.total ≡ length rs) × (s.passed + s.failed + s.skipped + s.errored ≡ s.total)
  unfolding build_report
  build_report-counts rs target level h =
      let c = count_results-Counted rs (before rs) in
      omega (arith, c.total, c.known, number-length rs h)
