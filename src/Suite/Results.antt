-- ===== src/Suite/Results.antt =====
-- The statuses that runTest gives.
use ojs_conformance.Common.{
  Text, true, not, List, [], ◌∷◌, Option-cases, ◌≡◌, ◌↔◌, ◌⊎◌, refl, inl, inr, arith,
}
use ojs_conformance.Schema.{Step, TestCase, Status, Failure, pass, fail, error}
use ojs_conformance.Runner.{
  Exchange, run_setup, run_test, status_of, steps_of, execute_steps_with_parallel,
}
use ojs_conformance.Report.Counts.{is_failing}
use ojs_conformance.Report.Grpc.{is_pass}

status_of_cases : (fs : List Failure) → (status_of fs ≡ pass) ⊎ (status_of fs ≡ fail)
status_of_cases [] = inl refl
status_of_cases (f ∷ fs) = inr refl

-- A run of a test gives no other status than these three.
pub run_test-cases :
    {Num : Type 0}
    → (collect : Text → List Text → List (Step Num) → List (Step Num) → List (Step Num))
    → (X : Exchange Num) (tc : TestCase Num)
    → let s = (run_test X collect tc).status in (s ≡ pass) ⊎ ((s ≡ fail) ⊎ (s ≡ error))
unfolding run_test
run_test-cases collect X tc =
    let ready = run_setup X (steps_of tc.setup) [] in
    elim (Option-cases ready.1) [
      | inl e ↦
          rw (e, run_test)
            (elim (status_of_cases
              (execute_steps_with_parallel X collect tc.steps ready.0).failures) [
                | inl p ↦ inl p
                | inr p ↦ inr (inl p)
              ])
      | inr (f, e) ↦ rw (e, run_test) (inr (inr refl))
    ]

pub not-failing_iff :
    (s : Status)
    → (s ≡ pass) ⊎ ((s ≡ fail) ⊎ (s ≡ error))
    → (not (is_failing s) ≡ true) ↔ (s ≡ pass)
not-failing_iff s (inl e) = rw e ((λ h. refl), (λ h. refl))
not-failing_iff s (inr (inl e)) = rw e ((λ h. ground arith), (λ h. ground arith))
not-failing_iff s (inr (inr e)) = rw e ((λ h. ground arith), (λ h. ground arith))

pub is_pass_iff : (s : Status) → (is_pass s ≡ true) ↔ (s ≡ pass)
is_pass_iff pass = ((λ h. refl), (λ h. refl))
is_pass_iff s = ((λ h. ground arith), (λ h. ground arith))
