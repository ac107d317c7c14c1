-- ===== src/Runner/Passing.antt =====
-- When a test case without parallel steps passes (runTest of runner/http/runner.go and
-- runner/grpc/runner.go).
use ojs_conformance.Common.{
  Text, List, [], ◌∷◌, ◌++◌, none, ◌≡◌, ◌↔◌, refl, sym, subst, arith, ++-nil_iff, List-cases,
  Option-cases, inl, inr,
}
use ojs_conformance.Schema.{Step, TestCase, pass}
use ojs_conformance.Runner.{
  has_id, Stored, Exchange, Run, add_execution, run_one, run_setup, visit_step, execute_from,
  execute_steps_with_parallel, run_test, steps_of,
}
use ojs_conformance.Runner.Groups.{
  AreDistinct, AreSequential, AreNew, AreNew-nil, AreNew-append, parallel_groups-AreSequential,
}
use ojs_conformance.Runner.Cases.{status_of_lem}

module _ {Num : Type 0} (X : Exchange Num) where
  -- Every step is executed with the results of those before it, and reports no failure.
  abbrev pub AllPass : Stored Num → List (Step Num) → Type 0
  AllPass stored [] = Unit
  AllPass stored (s ∷ steps) =
      let e = X.execute_step stored s in (e.1 ≡ []) × AllPass ((s.id, e.0) ∷ stored) steps

  -- The map behind the steps.
  abbrev pub stored_after : Stored Num → List (Step Num) → Stored Num
  stored_after stored [] = stored
  stored_after stored (s ∷ steps) =
      stored_after ((s.id, (X.execute_step stored s).0) ∷ stored) steps

  AllPass-append :
      (stored : Stored Num) (xs ys : List (Step Num))
      → AllPass stored (xs ++ ys) ↔ (AllPass stored xs × AllPass (stored_after stored xs) ys)
  AllPass-append stored [] ys = ((λ h. (tt, h)), (λ h. h.1))
  AllPass-append stored (x ∷ xs) ys =
      let i = AllPass-append ((x.id, (X.execute_step stored x).0) ∷ stored) xs ys in
      ((λ h. ((h.0, (i.0 h.1).0), (i.0 h.1).1)), (λ h. (h.0.0, i.1 (h.0.1, h.1))))

  execute_from-AllPass :
      (collect : Text → List Text → List (Step Num) → List (Step Num) → List (Step Num))
      → (steps : List (Step Num)) (run : Run Num) → AreDistinct steps
      → AreNew run.executed steps
      → ((execute_from X collect [] steps run).failures ≡ [])
        ↔ ((run.failures ≡ []) × AllPass run.stored steps)
  unfolding execute_from visit_step has_id add_execution
  execute_from-AllPass collect [] run d h = ((λ e. (e, tt)), (λ p. p.0))
  execute_from-AllPass collect (s ∷ steps) run d h =
      let e = X.execute_step run.stored s in
      let later =
        execute_from-AllPass collect steps (run_one X s run) d.1
          (AreNew-append run.executed s steps h.1 d.0) in
      let both : (run.failures ++ e.1 ≡ []) ↔ ((run.failures ≡ []) × (e.1 ≡ [])) =
        ++-nil_iff ((λ x. x), (λ x. x)) ((λ x. x), (λ x. x)) in
      rw (h.0, execute_from)
        (
          (λ x. let (a, b) = later.0 x in let (f, g) = both.0 a in (f, (g, b))),
          (λ (f, (g, b)). later.1 (both.1 (f, g), b)),
        )

  run_setup-AllPass :
      (steps : List (Step Num)) (stored : Stored Num)
      → (((run_setup X steps stored).1 ≡ none) ↔ AllPass stored steps)
        × (AllPass stored steps → (run_setup X steps stored).0 ≡ stored_after stored steps)
  unfolding run_setup
  run_setup-AllPass [] stored = (((λ e. tt), (λ t. refl)), (λ t. refl))
  run_setup-AllPass (s ∷ steps) stored =
      let e = X.execute_step stored s in
      let later = run_setup-AllPass steps ((s.id, e.0) ∷ stored) in
      elim (List-cases e.1) [
        | inl q ↦
            rw (q, run_setup)
              (((λ x. (refl, later.0.0 x)), (λ (a, b). later.0.1 b)), (λ (a, b). later.1 b))
        | inr (f, fs, q) ↦
            rw (q, run_setup)
              (((λ x. ground arith), (λ (a, b). ground arith)), (λ (a, b). ground arith))
      ]

  execute_steps_with_parallel-AllPass :
      (collect : Text → List Text → List (Step Num) → List (Step Num) → List (Step Num))
      → (steps : List (Step Num)) (stored : Stored Num) → AreSequential steps
      → AreDistinct steps
      → ((execute_steps_with_parallel X collect steps stored).failures ≡ []) ↔ AllPass stored steps
  unfolding execute_steps_with_parallel
  execute_steps_with_parallel-AllPass collect steps stored sequential distinct =
      let run : Run Num = record { results = []; failures = []; stored = stored; executed = [] } in
      let i = execute_from-AllPass collect steps run distinct (AreNew-nil steps) in
      rw (parallel_groups-AreSequential steps sequential, execute_steps_with_parallel)
        ((λ e. (i.0 e).1), (λ h. i.1 (refl, h)))

  -- A test case whose steps name no other step to run with, and have distinct ids, passes exactly when
  -- its setup steps and then its steps, executed one after another with the results of those before,
  -- report no failure; the teardown has no part in it.
  pub run_test-AllPass :
      (collect : Text → List Text → List (Step Num) → List (Step Num) → List (Step Num))
      → (tc : TestCase Num) → AreSequential tc.steps
      → AreDistinct tc.steps
      → ((run_test X collect tc).status ≡ pass) ↔ AllPass [] (steps_of tc.setup ++ tc.steps)
  unfolding run_test execute_steps_with_parallel
  run_test-AllPass collect tc sequential distinct =
      let setup = steps_of tc.setup in
      let ready = run_setup X setup [] in
      let prepared = run_setup-AllPass setup [] in
      let split = AllPass-append [] setup tc.steps in
      let run = execute_steps_with_parallel X collect tc.steps ready.0 in
      let executed =
        execute_steps_with_parallel-AllPass collect tc.steps ready.0 sequential distinct in
      let status = (status_of_lem run.failures).1 in
      elim (Option-cases ready.1) [
        | inl q ↦
            let same = prepared.1 (prepared.0.0 q) in
            rw (q, run_test)
              (
                (λ e. split.1 (
                  prepared.0.0 q,
                  subst (λ m. AllPass m tc.steps) same (executed.0 (status.0 e)),
                )),
                (λ h.
                    status.1
                      (executed.1 (subst (λ m. AllPass m tc.steps) (sym same) (split.0 h).1))),
              )
        | inr (f, q) ↦
            rw (q, run_test)
              (
                (λ e. ground arith),
                (λ h. absurd (let none_left = prepared.0.1 (split.0 h).0 in ground arith)),
              )
      ]
