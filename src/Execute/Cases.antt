-- ===== src/Execute/Cases.antt =====
-- The two runners' executeStep as the exchange of runTest (runner/http/runner.go,
-- runner/grpc/runner.go). What the server answers to the requests of a step is an argument, and may
-- depend on the steps before.
use ojs_conformance.Common.{ℕ, Text, true, List, [], ◌∷◌, ◌++◌, Option, ◌≡◌, ◌↔◌, ◌⊎◌}
use ojs_conformance.Json.{Runtime, Entries}
use ojs_conformance.Schema.{Step, TestCase, pass}
use ojs_conformance.Timing.{Arithmetic, TimingConfig}
use ojs_conformance.Runner.{Stored, Exchange, collect_group, grpc_collect_group, run_test, steps_of}
use ojs_conformance.Runner.Groups.{AreDistinct, AreSequential}
use ojs_conformance.Runner.Passing.{AllPass, run_test-AllPass}
use ojs_conformance.Adapter.{Method, Code, resolve_route}
use ojs_conformance.Evaluate.{Codec}
use ojs_conformance.Evaluate.Templates.{resolve_templates}
use ojs_conformance.Execute.{Request, Sent, is_wait, request_of, execute_step}
use ojs_conformance.Execute.Grpc.{Called, grpc_execute_step}
use ojs_conformance.Execute.Passing.{Answers, execute_step_iff, Routed, grpc_execute_step_iff}

-- The server, as an execution of a step sees it, alone or at an index of a group.
pub record Replies (Num Asked Answer : Type 0) : Type 0 where
  pub reply : Stored Num → Step Num → Asked → Answer
  pub reply_in_group : Stored Num → List (Step Num) → ℕ → Step Num → Asked → Answer

-- A call of CallRPC: the method, the path and the body.
abbrev pub Call : Type 0 → Type 0
Call Num = Option Method × Text × Option (Entries Num)

module _ {Num : Type 0} (R : Runtime Num) (A : Arithmetic Num) (C : Codec Num) where
  abbrev pub http_exchange : Text → TimingConfig Num → Replies Num Request Sent → Exchange Num
  http_exchange base_url tc server = record {
    execute_step = λ stored s. execute_step R A C base_url tc (server.reply stored s) stored s;
    execute_in_group = λ stored group i s.
        execute_step R A C base_url tc (server.reply_in_group stored group i s) stored s;
  }

  abbrev pub grpc_exchange :
      (Code → Text) → TimingConfig Num → Replies Num (Call Num) Called → Exchange Num
  grpc_exchange code_string tc server = record {
    execute_step = λ stored s.
        grpc_execute_step R A C code_string tc (λ m p b. server.reply stored s (m, p, b)) stored s;
    execute_in_group = λ stored group i s.
        grpc_execute_step R A C code_string tc
          (λ m p b. server.reply_in_group stored group i s (m, p, b)) stored s;
  }

  -- Each step is a WAIT, or the server's answer to its request meets its assertions.
  abbrev pub AllAnswered :
      Text → TimingConfig Num → Replies Num Request Sent → Stored Num → List (Step Num) → Type 0
  AllAnswered base_url tc server stored [] = Unit
  AllAnswered base_url tc server stored (s ∷ steps) =
      ((is_wait s.action ≡ true)
        ⊎ Answers R A C tc stored s (server.reply stored s (request_of R A C base_url stored s)))
      × AllAnswered base_url tc server
          ((s.id, ((http_exchange base_url tc server).execute_step stored s).0) ∷ stored) steps

  AllPass-AllAnswered :
      (base_url : Text) (tc : TimingConfig Num) (server : Replies Num Request Sent)
      → (stored : Stored Num) (steps : List (Step Num))
      → AllPass (http_exchange base_url tc server) stored steps
        ↔ AllAnswered base_url tc server stored steps
  AllPass-AllAnswered base_url tc server stored [] = ((λ h. h), (λ h. h))
  AllPass-AllAnswered base_url tc server stored (s ∷ steps) =
      let i = execute_step_iff R A C base_url tc (server.reply stored s) stored s in
      let later =
        AllPass-AllAnswered base_url tc server
          ((s.id, ((http_exchange base_url tc server).execute_step stored s).0) ∷ stored) steps in
      ((λ (a, b). (i.0 a, later.0 b)), (λ (a, b). (i.1 a, later.1 b)))

  -- A test case of the HTTP runner without parallel steps, and with distinct ids, passes exactly when
  -- every step of the setup and of the test is a WAIT, or its request, which an ASSERT has as well, gets
  -- a response that meets those of its assertions that the runner evaluates (of a response that is no
  -- JSON object no entry of the body but `$or`, and of others none but `$or` whose key begins with `$` and
  -- not with `$.`).
  pub run_test-AllAnswered :
      (base_url : Text) (tc : TimingConfig Num) (server : Replies Num Request Sent)
      → (t : TestCase Num) → AreSequential t.steps
      → AreDistinct t.steps
      → ((run_test (http_exchange base_url tc server) collect_group t).status ≡ pass)
        ↔ AllAnswered base_url tc server [] (steps_of t.setup ++ t.steps)
  run_test-AllAnswered base_url tc server t sequential distinct =
      let i =
        run_test-AllPass (http_exchange base_url tc server) collect_group t sequential distinct in
      let j = AllPass-AllAnswered base_url tc server [] (steps_of t.setup ++ t.steps) in
      ((λ e. j.0 (i.0 e)), (λ h. i.1 (j.1 h)))

  -- Each step is a WAIT, or has a route, and the call of it meets the assertions.
  abbrev pub AllRouted :
      (Code → Text)
      → TimingConfig Num
      → Replies Num (Call Num) Called
      → Stored Num
      → List (Step Num)
      → Type 0
  AllRouted code_string tc server stored [] = Unit
  AllRouted code_string tc server stored (s ∷ steps) =
      ((is_wait s.action ≡ true)
        ⊎ Routed R A C tc (λ m p b. server.reply stored s (m, p, b)) stored s
            (resolve_route s.action (resolve_templates R C s.path stored)))
      × AllRouted code_string tc server
          ((s.id, ((grpc_exchange code_string tc server).execute_step stored s).0) ∷ stored) steps

  AllPass-AllRouted :
      (code_string : Code → Text) (tc : TimingConfig Num) (server : Replies Num (Call Num) Called)
      → (stored : Stored Num) (steps : List (Step Num))
      → AllPass (grpc_exchange code_string tc server) stored steps
        ↔ AllRouted code_string tc server stored steps
  AllPass-AllRouted code_string tc server stored [] = ((λ h. h), (λ h. h))
  AllPass-AllRouted code_string tc server stored (s ∷ steps) =
      let i =
        grpc_execute_step_iff R A C code_string tc (λ m p b. server.reply stored s (m, p, b)) stored
          s in
      let later =
        AllPass-AllRouted code_string tc server
          ((s.id, ((grpc_exchange code_string tc server).execute_step stored s).0) ∷ stored)
          steps in
      ((λ (a, b). (i.0 a, later.0 b)), (λ (a, b). (i.1 a, later.1 b)))

  -- A test case of the gRPC runner without parallel steps, and with distinct ids, passes exactly when
  -- every step of the setup and of the test is a WAIT, or has a route, which an ASSERT needs as well,
  -- whose call gives a result that meets those of its assertions that the runner evaluates: not those on
  -- headers, no entry of the body but `$or` if the result is no JSON object, and else none but `$or` whose
  -- key begins with `$` and not with `$.`.
  pub run_test-AllRouted :
      (code_string : Code → Text) (tc : TimingConfig Num) (server : Replies Num (Call Num) Called)
      → (t : TestCase Num) → AreSequential t.steps
      → AreDistinct t.steps
      → ((run_test (grpc_exchange code_string tc server) grpc_collect_group t).status ≡ pass)
        ↔ AllRouted code_string tc server [] (steps_of t.setup ++ t.steps)
  run_test-AllRouted code_string tc server t sequential distinct =
      let i =
        run_test-AllPass (grpc_exchange code_string tc server) grpc_collect_group t sequential
          distinct in
      let j = AllPass-AllRouted code_string tc server [] (steps_of t.setup ++ t.steps) in
      ((λ e. j.0 (i.0 e)), (λ h. i.1 (j.1 h)))
