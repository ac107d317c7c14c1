-- ===== src/Runner/Steps.antt =====
-- Which steps executeStepsWithParallel executes.
use ojs_conformance.Common.{
  ℕ, suc, Text, true, ◌&&◌, ◌||◌, List, [], ◌∷◌, ◌++◌, append-nil, append_assoc, ◌≡◌, refl, ◌∙◌, ap,
  sym, &&_iff, arith, All, str_eq, str_eq_refl, ltb, length, Bool-cases, inl, inr,
}
use ojs_conformance.Schema.{Step}
use ojs_conformance.Runner.{
  has_id, collect_group, grpc_collect_group, parallel_groups, Stored, Exchange, Run, add_execution,
  add_group, visit_step, execute_from, execute_steps_with_parallel,
}

pub has_id-append :
    (id : Text) (xs ys : List Text) → has_id id (xs ++ ys) ≡ (has_id id xs || has_id id ys)
unfolding has_id
has_id-append id [] ys = refl
has_id-append id (x ∷ xs) ys = ground (arith, has_id-append id xs ys)

module _ {Num : Type 0} where
  abbrev pub ids : List (Step Num) → List Text
  ids [] = []
  ids (s ∷ steps) = s.id ∷ ids steps

  has_id-ids :
      (x : Text) (group : List (Step Num)) (s : Step Num)
      → has_id x (ids (group ++ s ∷ [])) ≡ (has_id x (ids group) || str_eq s.id x)
  unfolding has_id
  has_id-ids x [] s = ground arith
  has_id-ids x (g ∷ group) s = ground (arith, has_id-ids x group s)

  -- A collected step stays in the group.
  collect_group-keeps :
      (trigger : Text) (members : List Text) (group steps : List (Step Num)) (x : Text)
      → has_id x (ids group) ≡ true
      → has_id x (ids (collect_group trigger members group steps)) ≡ true
  unfolding collect_group
  collect_group-keeps trigger members group [] x h = h
  collect_group-keeps trigger members group (s ∷ steps) x h =
      let longer : has_id x (ids (group ++ s ∷ [])) ≡ true = has_id-ids x group s ∙ ground arith in
      ground (
        arith,
        longer,
        collect_group-keeps trigger members group steps x h,
        collect_group-keeps trigger members (group ++ s ∷ []) steps x longer,
      )

  grpc_collect_group-keeps :
      (trigger : Text) (members : List Text) (group steps : List (Step Num)) (x : Text)
      → has_id x (ids group) ≡ true
      → has_id x (ids (grpc_collect_group trigger members group steps)) ≡ true
  unfolding grpc_collect_group
  grpc_collect_group-keeps trigger members group [] x h = h
  grpc_collect_group-keeps trigger members group (s ∷ steps) x h =
      let longer : has_id x (ids (group ++ s ∷ [])) ≡ true = has_id-ids x group s ∙ ground arith in
      ground (
        arith,
        longer,
        grpc_collect_group-keeps trigger members group steps x h,
        grpc_collect_group-keeps trigger members (group ++ s ∷ []) steps x longer,
      )

  -- A way to collect a group that takes the step it starts with.
  abbrev TakesFirst :
      (Text → List Text → List (Step Num) → List (Step Num) → List (Step Num)) → Type 0
  TakesFirst collect =
      (members : List Text) (s : Step Num) (later : List (Step Num))
      → has_id s.id members ≡ true
      → has_id s.id (ids (collect s.id members [] (s ∷ later))) ≡ true

  collect_group-TakesFirst : TakesFirst collect_group
  unfolding collect_group has_id
  collect_group-TakesFirst members s later h =
      rw (h, str_eq_refl s.id)
        (collect_group-keeps s.id members (s ∷ []) later s.id (rw (str_eq_refl s.id) refl))

  grpc_collect_group-TakesFirst : TakesFirst grpc_collect_group
  unfolding grpc_collect_group has_id
  grpc_collect_group-TakesFirst members s later h =
      let self = str_eq_refl s.id in
      let kept = grpc_collect_group-keeps s.id members (s ∷ []) later s.id (rw self refl) in
      rw h (elim (Bool-cases (str_eq s.parallel_with s.id || str_eq s.id s.id)) [
        | inl e ↦ rw e kept
        | inr e ↦ rw e kept
      ])

  module _ (X : Exchange Num) where
    add_group-executed :
        (stored : Stored Num) (group : List (Step Num)) (i : ℕ) (steps : List (Step Num))
        → (run : Run Num)
        → (add_group X stored group i steps run).executed ≡ run.executed ++ ids steps
    unfolding add_group add_execution
    add_group-executed stored group i [] run = sym (append-nil run.executed)
    add_group-executed stored group i (s ∷ steps) run =
        add_group-executed stored group (suc i) steps
          (add_execution s (X.execute_in_group stored group i s) run)
        ∙ append_assoc run.executed (s.id ∷ []) (ids steps)

    module _
        (collect : Text → List Text → List (Step Num) → List (Step Num) → List (Step Num)) where
      -- A round of the loop forgets no execution.
      visit_step-keeps :
          (members : List Text) (s : Step Num) (later : List (Step Num)) (run : Run Num) (x : Text)
          → has_id x run.executed ≡ true
          → has_id x (visit_step X collect members s later run).executed ≡ true
      unfolding visit_step add_execution
      visit_step-keeps members s later run x h =
          let group = collect s.id members [] (s ∷ later) in
          let one : has_id x (run.executed ++ s.id ∷ []) ≡ true =
            has_id-append x run.executed (s.id ∷ []) ∙ ground arith in
          let both : has_id x (add_group X run.stored group 0 group run).executed ≡ true =
            ap (has_id x) (add_group-executed run.stored group 0 group run)
            ∙ (has_id-append x run.executed (ids group) ∙ ground arith) in
          elim (Bool-cases (has_id s.id run.executed)) [
            | inl e ↦ rw e h
            | inr e ↦ elim (Bool-cases (has_id s.id members && ltb 1 (length group))) [
              | inl f ↦ rw (e, f) both
              | inr f ↦ rw (e, f) one
            ]
          ]

      -- After its round, a step is executed.
      visit_step-executed :
          TakesFirst collect
          → (members : List Text) (s : Step Num) (later : List (Step Num)) (run : Run Num)
          → has_id s.id (visit_step X collect members s later run).executed ≡ true
      unfolding visit_step add_execution
      visit_step-executed first members s later run =
          let group = collect s.id members [] (s ∷ later) in
          let one : has_id s.id (run.executed ++ s.id ∷ []) ≡ true =
            has_id-append s.id run.executed (s.id ∷ [])
            ∙ (unfold has_id in rw (str_eq_refl s.id) (ground arith)) in
          let both : has_id s.id members ≡ true
              → has_id s.id (add_group X run.stored group 0 group run).executed ≡ true =
            λ m.
              ap (has_id s.id) (add_group-executed run.stored group 0 group run)
              ∙ (has_id-append s.id run.executed (ids group)
                  ∙ (rw (first members s later m) (ground arith))) in
          elim (Bool-cases (has_id s.id run.executed)) [
            | inl e ↦ rw e e
            | inr e ↦ elim (Bool-cases (has_id s.id members && ltb 1 (length group))) [
              | inl f ↦ rw (e, f) (both (((&&_iff _ _).0 f).0))
              | inr f ↦ rw (e, f) one
            ]
          ]

      execute_from-keeps :
          (members : List Text) (steps : List (Step Num)) (run : Run Num) (x : Text)
          → has_id x run.executed ≡ true
          → has_id x (execute_from X collect members steps run).executed ≡ true
      unfolding execute_from
      execute_from-keeps members [] run x h = h
      execute_from-keeps members (s ∷ steps) run x h =
          execute_from-keeps members steps (visit_step X collect members s steps run) x
            (visit_step-keeps members s steps run x h)

      execute_from_complete :
          TakesFirst collect
          → (members : List Text) (steps : List (Step Num)) (run : Run Num)
          → All (λ s. has_id s.id (execute_from X collect members steps run).executed ≡ true) steps
      unfolding execute_from
      execute_from_complete first members [] run = tt
      execute_from_complete first members (s ∷ steps) run = (
        execute_from-keeps members steps (visit_step X collect members s steps run) s.id
            (visit_step-executed first members s steps run),
        execute_from_complete first members steps (visit_step X collect members s steps run),
      )

    -- Whatever groups the steps form, both runners execute every id of a step at least once: for each step,
    -- the step itself or another one with the same id.
    pub execute_steps_with_parallel_complete :
        (steps : List (Step Num)) (stored : Stored Num)
        → All
            (λ s.
              has_id s.id (execute_steps_with_parallel X collect_group steps stored).executed
              ≡ true)
            steps
          × All
              (λ s.
                has_id s.id (execute_steps_with_parallel X grpc_collect_group steps stored).executed
                ≡ true)
              steps
    unfolding execute_steps_with_parallel
    execute_steps_with_parallel_complete steps stored =
        let run : Run Num = record {
          results = [];
          failures = [];
          stored = stored;
          executed = [];
        } in
        (
          execute_from_complete collect_group collect_group-TakesFirst (parallel_groups steps) steps
              run,
          execute_from_complete grpc_collect_group grpc_collect_group-TakesFirst
              (parallel_groups steps) steps run,
        )
