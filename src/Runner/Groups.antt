-- ===== src/Runner/Groups.antt =====
-- How often executeStepsWithParallel executes a step.
use ojs_conformance.Common.{
  Text, false, List, [], ◌∷◌, ◌++◌, append-nil, append_assoc, ◌≡◌, refl, ◌∙◌, ap, sym, arith, All,
  str_eq,
}
use ojs_conformance.Schema.{Step}
use ojs_conformance.Runner.{
  has_id, collect_group, grpc_collect_group, parallel_groups, Stored, Exchange, Run, add_execution,
  run_one, visit_step, execute_from, execute_steps_with_parallel,
}
use ojs_conformance.Runner.Steps.{ids, has_id-append}

-- No id is in the log twice.
abbrev pub Once : List Text → Type 0
Once [] = Unit
Once (x ∷ xs) = (has_id x xs ≡ false) × Once xs

module _ {Num : Type 0} where
  -- No two steps have the same id.
  abbrev pub AreDistinct : List (Step Num) → Type 0
  AreDistinct [] = Unit
  AreDistinct (s ∷ steps) = All (λ t. str_eq s.id t.id ≡ false) steps × AreDistinct steps

  -- No step names another one to run together with.
  abbrev pub AreSequential : List (Step Num) → Type 0
  AreSequential steps = All (λ s. s.parallel_with ≡ []) steps

  -- None of the steps is in the log.
  abbrev pub AreNew : List Text → List (Step Num) → Type 0
  AreNew log steps = All (λ s. has_id s.id log ≡ false) steps

  pub AreNew-nil : (steps : List (Step Num)) → AreNew [] steps
  unfolding has_id
  AreNew-nil [] = tt
  AreNew-nil (s ∷ steps) = (refl, AreNew-nil steps)

  pub AreNew-append :
      (log : List Text) (s : Step Num) (steps : List (Step Num))
      → AreNew log steps
      → All (λ t. str_eq s.id t.id ≡ false) steps
      → AreNew (log ++ s.id ∷ []) steps
  unfolding has_id
  AreNew-append log s [] h d = tt
  AreNew-append log s (t ∷ steps) h d = (
    has_id-append t.id log (s.id ∷ []) ∙ ground (arith, h.0, d.0),
    AreNew-append log s steps h.1 d.1,
  )

  pub parallel_groups-AreSequential :
      (steps : List (Step Num)) → AreSequential steps → parallel_groups steps ≡ []
  unfolding parallel_groups str_eq
  parallel_groups-AreSequential [] h = refl
  parallel_groups-AreSequential (s ∷ steps) h =
      rw (h.0, parallel_groups) (parallel_groups-AreSequential steps h.1)

  module _ (X : Exchange Num) where
    execute_from-sequential :
        (collect : Text → List Text → List (Step Num) → List (Step Num) → List (Step Num))
        → (steps : List (Step Num)) → (run : Run Num) → AreDistinct steps
        → AreNew run.executed steps
        → (execute_from X collect [] steps run).executed ≡ run.executed ++ ids steps
    unfolding execute_from visit_step has_id add_execution
    execute_from-sequential collect [] run d h = sym (append-nil run.executed)
    execute_from-sequential collect (s ∷ steps) run d h =
        rw (h.0, execute_from)
          (execute_from-sequential collect steps (run_one X s run) d.1
              (AreNew-append run.executed s steps h.1 d.0)
            ∙ append_assoc run.executed (s.id ∷ []) (ids steps))

    -- Where no step names another one to run with, and no two steps have the same id, both runners
    -- execute every step once, in the order of the test case.
    pub execute_steps_with_parallel-sequential :
        (steps : List (Step Num)) (stored : Stored Num)
        → AreSequential steps
        → AreDistinct steps
        → ((execute_steps_with_parallel X collect_group steps stored).executed ≡ ids steps)
          × ((execute_steps_with_parallel X grpc_collect_group steps stored).executed ≡ ids steps)
    unfolding execute_steps_with_parallel
    execute_steps_with_parallel-sequential steps stored h d =
        let run : Run Num = record {
          results = [];
          failures = [];
          stored = stored;
          executed = [];
        } in
        let once =
          λ (collect : Text → List Text → List (Step Num) → List (Step Num) → List (Step Num)).
            ap (λ members. (execute_from X collect members steps run).executed)
              (parallel_groups-AreSequential steps h)
            ∙ execute_from-sequential collect steps run d (AreNew-nil steps) in
        (once collect_group, once grpc_collect_group)
