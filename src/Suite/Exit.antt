-- ===== src/Suite/Exit.antt =====
-- The exit codes of the two runners.
use ojs_conformance.Common.{
  ℕ, Text, text, Bool, true, not, List, [], ◌∷◌, ◌++◌, none, ◌≡◌, ◌≢◌, ◌↔◌, ◌∙◌, ◌⊎◌, sym, ap, refl,
  inl, inr, arith, all, &&_iff, Option-cases, length, ltb,
}
use ojs_conformance.Schema.{Step, TestCase, SuiteReport, Status, pass}
use ojs_conformance.Runner.{Exchange, filter_tests, run_test, collect_group, grpc_collect_group}
use ojs_conformance.Report.{build_report}
use ojs_conformance.Report.Counts.{is_failing, build_report-conformant}
use ojs_conformance.Report.Grpc.{is_pass, grpc_build_report, grpc_build_report-conformant}
use ojs_conformance.Suite.Results.{run_test-cases, not-failing_iff, is_pass_iff}
use ojs_conformance.Suite.{
  Flags, Environment, load_tests, run_tests, redis_error, report_error, exit_code, with_selected,
  with_loaded, with_tests, base_url, grpc_addr, http_main, grpc_main,
}

module _ {Num : Type 0} (E : Environment Num) where
  abbrev chosen : Flags → List (TestCase Num) → List (TestCase Num)
  chosen flags tests = filter_tests tests flags.level flags.category flags.test_id

  with_selected-zero_iff :
      (flags : Flags) (run : List (TestCase Num) → ℕ) (tests : List (TestCase Num))
      → (with_selected E flags run tests ≡ 0)
        ↔ ((tests ≢ []) × (redis_error E flags.redis_url ≡ none) × (run tests ≡ 0))
  with_selected-zero_iff flags run [] =
      ((λ h. absurd (omega arith)), (λ (ne, r, h). absurd (ne refl)))
  with_selected-zero_iff flags run (tc ∷ tests) =
      elim (Option-cases (redis_error E flags.redis_url)) [
        | inl e ↦ rw (e, with_selected) ((λ h. ((λ q. ground arith), refl, h)), (λ (ne, r, h). h))
        | inr (x, e) ↦
            rw (e, with_selected) ((λ h. absurd (omega arith)), (λ (ne, r, h). ground arith))
      ]

  with_loaded-zero_iff :
      (flags : Flags) (run : List (TestCase Num) → ℕ) (l : Text ⊎ List (TestCase Num))
      → (with_loaded E flags run l ≡ 0) ↔ (
          (loaded : List (TestCase Num)) × (l ≡ inr loaded)
          × (with_selected E flags run (chosen flags loaded) ≡ 0))
  with_loaded-zero_iff flags run (inl e) =
      ((λ h. absurd (omega arith)), (λ (loaded, q, h). ground arith))
  with_loaded-zero_iff flags run (inr tests) = (
    (λ h. (tests, refl, h)),
    (λ (loaded, q, h).
        let e : tests ≡ loaded = cc in
        ap (λ ts. with_selected E flags run (chosen flags ts)) e ∙ h),
  )

  exit_code-zero_iff :
      (flags : Flags) (report : SuiteReport Num)
      → (exit_code E flags report ≡ 0)
        ↔ ((report_error E flags.report_file report ≡ none) × (report.conformant ≡ true))
  exit_code-zero_iff flags report = elim (Option-cases (report_error E flags.report_file report)) [
    | inl e ↦ rw (e, exit_code) ((λ h. (refl, ground arith)), (λ (q, h). rw h refl))
    | inr (x, e) ↦ rw (e, exit_code) ((λ h. absurd (omega arith)), (λ (q, h). ground arith))
  ]

  run_tests-ne :
      (collect : Text → List Text → List (Step Num) → List (Step Num) → List (Step Num))
      → (url : Text) (before tests : List (TestCase Num)) → tests ≢ []
      → ltb 0 (length (run_tests E collect url before tests)) ≡ true
  unfolding run_tests
  run_tests-ne collect url before [] ne = absurd (ne refl)
  run_tests-ne collect url before (tc ∷ tests) ne = ground arith

  -- Every test of a run has the result "pass", each after those before it.
  abbrev pub AllPassed :
      (Text → List Text → List (Step Num) → List (Step Num) → List (Step Num))
      → Text
      → List (TestCase Num)
      → List (TestCase Num)
      → Type 0
  AllPassed collect url before [] = Unit
  AllPassed collect url before (tc ∷ tests) =
      ((run_test (E.exchange url before tc) collect tc).status ≡ pass)
      × AllPassed collect url (before ++ tc ∷ []) tests

  all-AllPassed :
      (collect : Text → List Text → List (Step Num) → List (Step Num) → List (Step Num))
      → (p : Status → Bool)
      → ((X : Exchange Num) (tc : TestCase Num)
          → (p (run_test X collect tc).status ≡ true) ↔ ((run_test X collect tc).status ≡ pass))
      → (url : Text) (before tests : List (TestCase Num))
      → (all (λ r. p r.status) (run_tests E collect url before tests) ≡ true)
        ↔ AllPassed collect url before tests
  unfolding run_tests
  all-AllPassed collect p h url before [] = ((λ e. tt), (λ e. refl))
  all-AllPassed collect p h url before (tc ∷ tests) =
      let later = all-AllPassed collect p h url (before ++ tc ∷ []) tests in
      let both =
        &&_iff (p (run_test (E.exchange url before tc) collect tc).status)
          (all (λ r. p r.status) (run_tests E collect url (before ++ tc ∷ []) tests)) in
      let one = h (E.exchange url before tc) tc in
      ((λ e. (one.0 (both.0 e).0, later.0 (both.0 e).1)), (λ (a, b). both.1 (one.1 a, later.1 b)))

  -- The tests that a run with these flags selects: the files load, there is a test, and Redis answers
  -- if it is asked for.
  abbrev pub Selected : Flags → List (TestCase Num) → Type 0
  Selected flags tests =
      ((loaded : List (TestCase Num)) × (load_tests E ≡ inr loaded) × (chosen flags loaded ≡ tests))
      × (tests ≢ [])
      × (redis_error E flags.redis_url ≡ none)

  -- The conditions under which a runner that reports in a given way exits with 0.
  abbrev pub Succeeds :
      (Text → List Text → List (Step Num) → List (Step Num) → List (Step Num))
      → Text
      → (List (TestCase Num) → SuiteReport Num)
      → Flags
      → Type 0
  Succeeds collect url report flags =
      (tests : List (TestCase Num)) × Selected flags tests
      × (report_error E flags.report_file (report tests) ≡ none)
      × AllPassed collect url [] tests

  with_tests-Succeeds :
      (collect : Text → List Text → List (Step Num) → List (Step Num) → List (Step Num))
      → (url : Text) (report : List (TestCase Num) → SuiteReport Num)
      → ((tests : List (TestCase Num))
          → tests ≢ []
          → ((report tests).conformant ≡ true) ↔ AllPassed collect url [] tests)
      → (flags : Flags)
      → (with_tests E flags (λ tests. exit_code E flags (report tests)) ≡ 0)
        ↔ Succeeds collect url report flags
  with_tests-Succeeds collect url report conformant flags =
      let run : List (TestCase Num) → ℕ = λ tests. exit_code E flags (report tests) in
      (
        (λ h.
            let (loaded, e, s) = (with_loaded-zero_iff flags run (load_tests E)).0 h in
            let (ne, r, z) = (with_selected-zero_iff flags run (chosen flags loaded)).0 s in
            let (w, c) = (exit_code-zero_iff flags (report (chosen flags loaded))).0 z in
            (
              chosen flags loaded,
              ((loaded, e, refl), ne, r),
              w,
              (conformant (chosen flags loaded) ne).0 c,
            )),
        (λ (tests, ((loaded, e, f), ne, r), w, p).
            let z = (exit_code-zero_iff flags (report tests)).1 (w, (conformant tests ne).1 p) in
            let s = (with_selected-zero_iff flags run tests).1 (ne, r, z) in
            (with_loaded-zero_iff flags run (load_tests E)).1
              (loaded, e, ap (with_selected E flags run) f ∙ s)),
      )

  abbrev pub http_report : Flags → List (TestCase Num) → SuiteReport Num
  http_report flags tests =
      build_report (run_tests E collect_group (base_url E flags) [] tests) (base_url E flags)
        flags.level

  abbrev pub grpc_report : Flags → List (TestCase Num) → SuiteReport Num
  grpc_report flags tests =
      grpc_build_report (run_tests E grpc_collect_group (grpc_addr E flags) [] tests)
        (text "grpc://" ++ grpc_addr E flags) flags.level

  -- The HTTP runner exits with 0 exactly if the files load, the flags select a test, Redis answers
  -- if it is asked for, the report is written if that is asked for, and every selected test has the
  -- result "pass", each run after those before it.
  pub http_main-Succeeds :
      (flags : Flags)
      → (http_main E flags ≡ 0)
        ↔ Succeeds collect_group (base_url E flags) (http_report flags) flags
  unfolding http_main
  http_main-Succeeds flags =
      let url = base_url E flags in
      with_tests-Succeeds collect_group url (http_report flags)
        (λ tests ne.
          let c =
            build_report-conformant (run_tests E collect_group url [] tests) url flags.level in
          let i =
            all-AllPassed collect_group (λ s. not (is_failing s))
              (λ X tc.
                not-failing_iff (run_test X collect_group tc).status
                  (run_test-cases collect_group X tc))
              url [] tests in
          ((λ h. i.0 (sym c ∙ h)), (λ h. c ∙ i.1 h)))
        flags

  grpc_tests-Succeeds :
      (flags : Flags)
      → (with_tests E flags (λ tests. exit_code E flags (grpc_report flags tests)) ≡ 0)
        ↔ Succeeds grpc_collect_group (grpc_addr E flags) (grpc_report flags) flags
  grpc_tests-Succeeds flags =
      let url = grpc_addr E flags in
      with_tests-Succeeds grpc_collect_group url (grpc_report flags)
        (λ tests ne.
          let rs = run_tests E grpc_collect_group url [] tests in
          let c = grpc_build_report-conformant rs (text "grpc://" ++ url) flags.level in
          let i =
            all-AllPassed grpc_collect_group is_pass
              (λ X tc. is_pass_iff (run_test X grpc_collect_group tc).status) url [] tests in
          let some_result : ltb 0 (length rs) ≡ true =
            run_tests-ne grpc_collect_group url [] tests ne in
          (
            (λ h. i.0 ((&&_iff _ _).0 (sym c ∙ h)).1),
            (λ h. c ∙ (&&_iff _ _).1 (some_result, i.1 h)),
          ))
        flags

  -- The gRPC runner exits with 0 exactly if the connection to the server is made, the files load,
  -- the flags select a test, Redis answers if it is asked for, the report is written if that is
  -- asked for, and every selected test has the result "pass", each run after those before it.
  pub grpc_main-Succeeds :
      (flags : Flags)
      → (grpc_main E flags ≡ 0) ↔ (
          (E.connect (grpc_addr E flags) ≡ none)
          × Succeeds grpc_collect_group (grpc_addr E flags) (grpc_report flags) flags)
  unfolding grpc_main
  grpc_main-Succeeds flags =
      let i = grpc_tests-Succeeds flags in
      elim (Option-cases (E.connect (grpc_addr E flags))) [
        | inl e ↦ rw (e, grpc_main) ((λ h. (refl, i.0 h)), (λ (q, h). i.1 h))
        | inr (x, e) ↦ rw (e, grpc_main) ((λ h. cc), (λ (q, h). cc))
      ]
