-- ===== src/Runner.antt =====
-- Running test cases: filterTests, collectParallelGroup, executeStepsWithParallel and runTest of
-- runner/http/runner.go and runner/grpc/runner.go. executeStep, which talks to the server, is a field
-- of `Exchange`. The steps of a parallel group are executed by goroutines, so what the one at an index
-- returns is another field, which is given the whole group. `executed` is a log: it has an id once for
-- each execution.
pub mod Steps
pub mod Groups
pub mod Cases
pub mod Passing
use ojs_conformance.Common.{
  ℕ, suc, Text, text, ℤ, pos, Bool, true, false, not, ◌&&◌, ◌||◌, List, [], ◌∷◌, ◌++◌, Option, none,
  some, str_eq, ltb, ltb_ℤ, eq_ℤ, any, map, length, if◌then◌else◌,
}
use ojs_conformance.Schema.{
  Step, TestCase, TestResult, StepResult, Failure, Status, pass, fail, error,
}

-- `set[id]` of a map[string]bool
unfoldable pub has_id : Text → List Text → Bool
unfolding str_eq
has_id id [] = false
has_id id (x ∷ xs) = str_eq x id || has_id id xs

module _ {Num : Type 0} where
  -- A test case that filterTests keeps.
  abbrev pub is_selected : ℤ → Text → Text → TestCase Num → Bool
  is_selected level category test_id tc =
      (ltb_ℤ level (pos 0) || eq_ℤ tc.level_int level)
      && ((str_eq category [] || str_eq tc.category category)
          && (str_eq test_id [] || str_eq tc.test_id test_id))

  -- filterTests
  unfoldable pub filter_tests : List (TestCase Num) → ℤ → Text → Text → List (TestCase Num)
  unfolding str_eq
  filter_tests [] level category test_id = []
  filter_tests (tc ∷ tests) level category test_id =
      let rest = filter_tests tests level category test_id in
      if is_selected level category test_id tc then tc ∷ rest else rest

  -- The ids that the first loop of executeStepsWithParallel marks.
  unfoldable pub parallel_groups : List (Step Num) → List Text
  unfolding str_eq
  parallel_groups [] = []
  parallel_groups (s ∷ steps) =
      let rest = parallel_groups steps in
      if str_eq s.parallel_with [] then rest else s.id ∷ s.parallel_with ∷ rest

  -- collectParallelGroup of the HTTP runner, from the group so far.
  unfoldable pub collect_group :
      Text → List Text → List (Step Num) → List (Step Num) → List (Step Num)
  unfolding has_id str_eq
  collect_group trigger members group [] = group
  collect_group trigger members group (s ∷ steps) =
      let is_member = has_id s.id members in
      let joins =
        str_eq s.id trigger
        || (str_eq s.parallel_with trigger || not (str_eq s.parallel_with [])) in
      let group' = if is_member && joins then group ++ s ∷ [] else group in
      let rest = collect_group trigger members group' steps in
      if ltb 0 (length group') && not is_member then group' else rest

  -- collectParallelGroup of the gRPC runner.
  unfoldable pub grpc_collect_group :
      Text → List Text → List (Step Num) → List (Step Num) → List (Step Num)
  unfolding has_id str_eq
  grpc_collect_group trigger members group [] = group
  grpc_collect_group trigger members group (s ∷ steps) =
      let is_member = has_id s.id members in
      let group' = if is_member then group ++ s ∷ [] else group in
      let rest = grpc_collect_group trigger members group' steps in
      if str_eq s.parallel_with trigger || str_eq s.id trigger
      then rest
      else if is_member
      then rest
      else group'

-- map[string]*lib.StepResult, the newest entry first
abbrev pub Stored : Type 0 → Type 0
Stored Num = List (Text × StepResult Num)

-- The status at the end of runTest.
abbrev pub status_of : List Failure → Status
status_of [] = pass
status_of (f ∷ fs) = fail

-- What executeStep returns.
abbrev pub Executed : Type 0 → Type 0
Executed Num = StepResult Num × List Failure

pub record Exchange (Num : Type 0) : Type 0 where
  -- executeStep, given the results of the steps before
  pub execute_step : Stored Num → Step Num → Executed Num
  -- executeStep of the step at an index of a group whose steps run at the same time
  pub execute_in_group : Stored Num → List (Step Num) → ℕ → Step Num → Executed Num

-- The variables of executeStepsWithParallel.
pub record Run (Num : Type 0) : Type 0 where
  pub results : List (StepResult Num)
  pub failures : List Failure
  pub stored : Stored Num
  pub executed : List Text

module _ {Num : Type 0} where
  -- Adds one execution.
  unfoldable pub add_execution : Step Num → Executed Num → Run Num → Run Num
  add_execution s e run = record {
    results = run.results ++ e.0 ∷ [];
    failures = run.failures ++ e.1;
    stored = (s.id, e.0) ∷ run.stored;
    executed = run.executed ++ s.id ∷ [];
  }

  abbrev pub steps_of : Option (List (Step Num)) → List (Step Num)
  steps_of none = []
  steps_of (some steps) = steps

  abbrev pub result_of :
      TestCase Num → Status → List Failure → List (StepResult Num) → TestResult Num
  result_of tc status failures results = record {
    test_id = tc.test_id;
    name = tc.name;
    level = tc.level_int;
    category = tc.category;
    spec_ref = tc.spec_ref;
    status = status;
    failures = failures;
    step_results = results;
    file_path = tc.file_path;
  }

  module _ (X : Exchange Num) where
    -- Adds the executions of a group, from index `i`; all of them started with the map `stored`.
    unfoldable pub add_group :
        Stored Num → List (Step Num) → ℕ → List (Step Num) → Run Num → Run Num
    unfolding add_execution
    add_group stored group i [] run = run
    add_group stored group i (s ∷ steps) run =
        add_group stored group (suc i) steps
          (add_execution s (X.execute_in_group stored group i s) run)

    abbrev pub run_one : Step Num → Run Num → Run Num
    run_one s run = add_execution s (X.execute_step run.stored s) run

    module _
        (collect : Text → List Text → List (Step Num) → List (Step Num) → List (Step Num)) where
      -- One round of the loop over the steps, `s` the current one and `later` those behind it.
      unfoldable pub visit_step : List Text → Step Num → List (Step Num) → Run Num → Run Num
      unfolding has_id add_group
      visit_step members s later run =
          let group = collect s.id members [] (s ∷ later) in
          if has_id s.id run.executed
          then run
          else if has_id s.id members && ltb 1 (length group)
          then add_group run.stored group 0 group run
          else run_one s run

      unfoldable pub execute_from : List Text → List (Step Num) → Run Num → Run Num
      unfolding visit_step
      execute_from members [] run = run
      execute_from members (s ∷ later) run =
          execute_from members later (visit_step members s later run)

      -- executeStepsWithParallel, with the collectParallelGroup of the runner
      unfoldable pub execute_steps_with_parallel : List (Step Num) → Stored Num → Run Num
      unfolding execute_from parallel_groups
      execute_steps_with_parallel steps stored =
          execute_from (parallel_groups steps) steps
            (record { results = []; failures = []; stored = stored; executed = [] })

    -- The loop over the setup steps: the map, and the failure that ends it.
    unfoldable pub run_setup : List (Step Num) → Stored Num → Stored Num × Option Failure
    run_setup [] stored = (stored, none)
    run_setup (s ∷ steps) stored =
        let e = X.execute_step stored s in
        let stored' = (s.id, e.0) ∷ stored in
        let rest = run_setup steps stored' in
        elim e.1 [
          | [] ↦ rest
          | f ∷ _ ↦ (
            stored',
            some (record {
              step_id = s.id;
              field = [];
              expected = [];
              actual = [];
              message = text "Setup step failed: " ++ f.message;
            }),
          )
        ]

    -- runTest. The results of the teardown steps go into the map, which nothing reads any more.
    unfoldable pub run_test :
        (Text → List Text → List (Step Num) → List (Step Num) → List (Step Num))
        → TestCase Num
        → TestResult Num
    unfolding run_setup execute_steps_with_parallel
    run_test collect tc =
        let ready = run_setup (steps_of tc.setup) [] in
        let run = execute_steps_with_parallel collect tc.steps ready.0 in
        elim ready.1 [
          | some f ↦ result_of tc error (f ∷ []) []
          | none ↦ result_of tc (status_of run.failures) run.failures run.results
        ]
