-- ===== src/Runner/Cases.antt =====
-- The result of a test case, and the choice of test cases.
use ojs_conformance.Common.{
  Text, ℤ, negsuc, true, List, [], ◌∷◌, ◌≡◌, ◌↔◌, refl, arith, str_eq, Option-cases, inl, inr,
}
use ojs_conformance.Schema.{Step, TestCase, Failure, pass}
use ojs_conformance.Report.Counts.{is_known}
use ojs_conformance.Runner.{
  filter_tests, Exchange, run_setup, run_test, status_of, steps_of, execute_steps_with_parallel,
}

pub status_of_lem :
    (fs : List Failure) → (is_known (status_of fs) ≡ true) × ((status_of fs ≡ pass) ↔ (fs ≡ []))
status_of_lem [] = (refl, ((λ e. refl), (λ e. refl)))
status_of_lem (f ∷ fs) = (refl, ((λ e. ground arith), (λ e. ground arith)))

module _ {Num : Type 0} where
  -- The status of a result is "pass", "fail" or "error", and it is "pass" exactly when the result
  -- lists no failure.
  pub run_test-status :
      (X : Exchange Num)
      → (collect : Text → List Text → List (Step Num) → List (Step Num) → List (Step Num))
      → (tc : TestCase Num)
      → let r = run_test X collect tc in
        (is_known r.status ≡ true) × ((r.status ≡ pass) ↔ (r.failures ≡ []))
  unfolding run_test
  run_test-status X collect tc =
      let ready = run_setup X (steps_of tc.setup) [] in
      let run = execute_steps_with_parallel X collect tc.steps ready.0 in
      elim (Option-cases ready.1) [
        | inl e ↦ rw (e, run_test) (status_of_lem run.failures)
        | inr (f, e) ↦ rw (e, run_test) (refl, ((λ q. ground arith), (λ q. ground arith)))
      ]

  -- Filtering by level, category and test id at once is the same as filtering by one after another,
  -- and a filter that is left out keeps everything.
  pub filter_tests-filter_tests :
      (tests : List (TestCase Num)) (level : ℤ) (category test_id : Text)
      → filter_tests tests level category test_id
        ≡ filter_tests
            (filter_tests (filter_tests tests level [] []) (negsuc 0) category [])
            (negsuc 0)
            []
            test_id
  unfolding filter_tests str_eq
  filter_tests-filter_tests [] level category test_id = refl
  filter_tests-filter_tests (tc ∷ tests) level category test_id =
      ground (arith, filter_tests-filter_tests tests level category test_id)
