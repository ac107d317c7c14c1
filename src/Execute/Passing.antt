-- ===== src/Execute/Passing.antt =====
-- When executeStep (runner/http/runner.go, runner/grpc/runner.go) reports no failure, and when runTest
-- passes with it.
use ojs_conformance.Common.{
  Text, ℤ, true, List, [], Option, none, some, ◌≡◌, ◌↔◌, ◌⊎◌, inl, inr, refl, arith, Bool-cases,
  Option-cases,
}
use ojs_conformance.Json.{Runtime, Entries}
use ojs_conformance.Schema.{Step, Assertions, Failure}
use ojs_conformance.Timing.{Arithmetic, TimingConfig}
use ojs_conformance.Runner.{Stored}
use ojs_conformance.Adapter.{Method, Code, resolve_route, disambiguate}
use ojs_conformance.Evaluate.{Codec}
use ojs_conformance.Evaluate.Templates.{resolve_templates}
use ojs_conformance.Evaluate.Expectations.{Each}
use ojs_conformance.Evaluate.Steps.{evaluate_assertions, grpc_evaluate_assertions}
use ojs_conformance.Evaluate.Agreement.{
  Meets, evaluate_assertions_iff, grpc_evaluate_assertions_iff,
}
use ojs_conformance.Execute.{
  Request, Sent, not_created, not_sent, not_read, answered, is_wait, if_asserted, request_of,
  result_of_response, conclude, execute_step,
}
use ojs_conformance.Execute.Grpc.{
  Called, rpc_error, rpc_result, grpc_code_of, result_of_rpc, body_of, grpc_conclude,
  grpc_execute_step,
}

module _ {Num : Type 0} where
  if_asserted_iff :
      {P : Assertions Num → Type 0} (evaluate : Assertions Num → List Failure)
      → ((a : Assertions Num) → (evaluate a ≡ []) ↔ P a)
      → (o : Option (Assertions Num)) → (if_asserted evaluate o ≡ []) ↔ Each P o
  if_asserted_iff evaluate h none = ((λ e. tt), (λ t. refl))
  if_asserted_iff evaluate h (some a) = h a

module _ {Num : Type 0} (R : Runtime Num) (A : Arithmetic Num) (C : Codec Num) where
  -- A response came, and it meets those assertions of the step that the runner evaluates.
  abbrev pub Answers : TimingConfig Num → Stored Num → Step Num → Sent → Type 0
  Answers tc stored step (answered resp) =
      Each (λ a. Meets R A C tc stored a (result_of_response R A C step.id resp)) step.assertions
  Answers tc stored step _ = ⊥

  conclude_iff :
      (tc : TimingConfig Num) (stored : Stored Num) (step : Step Num) (sent : Sent)
      → ((conclude R A C tc stored step sent).1 ≡ []) ↔ Answers tc stored step sent
  unfolding conclude
  conclude_iff tc stored step (not_created e) = ((λ x. ground arith), (λ x. absurd x))
  conclude_iff tc stored step (not_sent e) = ((λ x. ground arith), (λ x. absurd x))
  conclude_iff tc stored step (not_read e) = ((λ x. ground arith), (λ x. absurd x))
  conclude_iff tc stored step (answered resp) =
      let sr = result_of_response R A C step.id resp in
      if_asserted_iff (λ a. evaluate_assertions R A C tc stored step.id a sr)
        (λ a. evaluate_assertions_iff R A C tc stored step.id a sr) step.assertions

  -- A step of the HTTP runner passes exactly when it is a WAIT, or its request gets a response that
  -- meets those of its assertions that the runner evaluates (of a response that is no JSON object no entry
  -- of the body but `$or` is evaluated, and of others none but `$or` whose key begins with `$` and not
  -- with `$.`). A step with the action ASSERT has a request as any other.
  pub execute_step_iff :
      (base_url : Text) (tc : TimingConfig Num) (send : Request → Sent) (stored : Stored Num)
      → (step : Step Num)
      → ((execute_step R A C base_url tc send stored step).1 ≡ []) ↔ (
          (is_wait step.action ≡ true)
          ⊎ Answers tc stored step (send (request_of R A C base_url stored step)))
  unfolding execute_step
  execute_step_iff base_url tc send stored step =
      let i = conclude_iff tc stored step (send (request_of R A C base_url stored step)) in
      elim (Bool-cases (is_wait step.action)) [
        | inl e ↦ rw (e, execute_step) ((λ x. inl refl), (λ x. refl))
        | inr e ↦
            rw (e, execute_step)
              ((λ x. inr (i.0 x)), elim [ inl q ↦ absurd (ground arith) | inr h ↦ i.1 h ])
      ]

  -- The call gave a result, and it meets the assertions of the step, those on headers left out.
  abbrev pub GrpcAnswers : TimingConfig Num → Stored Num → Step Num → Called → Type 0
  GrpcAnswers tc stored step (rpc_result r ms) =
      Each
        (λ a.
          Meets R A C tc stored (record a { headers = none }) (result_of_rpc R A C step.id r ms))
        step.assertions
  GrpcAnswers tc stored step (rpc_error e) = ⊥

  grpc_conclude_iff :
      (code_string : Code → Text) (tc : TimingConfig Num) (stored : Stored Num) (step : Step Num)
      → (called : Called)
      → ((grpc_conclude R A C code_string tc stored step called).1 ≡ [])
        ↔ GrpcAnswers tc stored step called
  unfolding grpc_conclude
  grpc_conclude_iff code_string tc stored step (rpc_error e) =
      ((λ x. ground arith), (λ x. absurd x))
  grpc_conclude_iff code_string tc stored step (rpc_result r ms) =
      let sr = result_of_rpc R A C step.id r ms in
      let name : ℤ → Text = λ z. code_string (grpc_code_of z) in
      if_asserted_iff (λ a. grpc_evaluate_assertions R A C name tc stored step.id a sr)
        (λ a. grpc_evaluate_assertions_iff R A C name tc stored step.id a sr) step.assertions

  -- The step has a route, and the call of its method answers.
  abbrev pub Routed :
      TimingConfig Num
      → (Option Method → Text → Option (Entries Num) → Called)
      → Stored Num
      → Step Num
      → Option Method
      → Type 0
  Routed tc call stored step none = ⊥
  Routed tc call stored step (some m) =
      let path = resolve_templates R C step.path stored in
      GrpcAnswers tc stored step (call (disambiguate m path) path (body_of R A C stored step.body))

  -- A step of the gRPC runner passes exactly when it is a WAIT, or it has a route and the call of the
  -- route's method gives a result that meets those of its assertions that the runner evaluates: not those
  -- on headers, no entry of the body but `$or` if the result is no JSON object, and else none but `$or`
  -- whose key begins with `$` and not with `$.`. A step with the action ASSERT needs a route as any other.
  pub grpc_execute_step_iff :
      (code_string : Code → Text) (tc : TimingConfig Num)
      → (call : Option Method → Text → Option (Entries Num) → Called)
      → (stored : Stored Num) (step : Step Num)
      → ((grpc_execute_step R A C code_string tc call stored step).1 ≡ []) ↔ (
          (is_wait step.action ≡ true)
          ⊎ Routed tc call stored step
              (resolve_route step.action (resolve_templates R C step.path stored)))
  unfolding grpc_execute_step
  grpc_execute_step_iff code_string tc call stored step =
      let path = resolve_templates R C step.path stored in
      elim (Bool-cases (is_wait step.action)) [
        | inl e ↦ rw (e, grpc_execute_step) ((λ x. inl refl), (λ x. refl))
        | inr e ↦ elim (Option-cases (resolve_route step.action path)) [
          | inl r ↦
              rw (e, r, grpc_execute_step)
                ((λ x. ground arith), elim [ inl q ↦ absurd (ground arith) | inr h ↦ absurd h ])
          | inr (m, r) ↦
              let i =
                grpc_conclude_iff code_string tc stored step
                  (call (disambiguate m path) path (body_of R A C stored step.body)) in
              rw (e, r, grpc_execute_step)
                ((λ x. inr (i.0 x)), elim [ inl q ↦ absurd (ground arith) | inr h ↦ i.1 h ])
        ]
      ]
