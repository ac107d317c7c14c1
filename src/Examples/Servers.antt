-- ===== src/Examples/Servers.antt =====
-- The theorems on the execution of steps, with a server that creates the job 7.
use ojs_conformance.Common.{
  Text, text, ℤ, pos, true, [], ◌∷◌, none, some, ◌≡◌, ◌↔◌, ◌⊎◌, refl, str_eq, decimal_ℤ,
}
use ojs_conformance.Schema.{Step, TestCase, pass}
use ojs_conformance.Runner.{collect_group, grpc_collect_group, run_test}
use ojs_conformance.Runner.Groups.{AreDistinct, AreSequential}
use ojs_conformance.Adapter.{Code, code_ok, resolve_route}
use ojs_conformance.Evaluate.Templates.{resolve_templates}
use ojs_conformance.Execute.{Request, Sent, answered, is_wait, request_of, execute_step}
use ojs_conformance.Execute.Grpc.{Called, rpc_result, grpc_execute_step}
use ojs_conformance.Execute.Passing.{Answers, execute_step_iff, Routed, grpc_execute_step_iff}
use ojs_conformance.Execute.Cases.{
  Replies, Call, http_exchange, grpc_exchange, AllAnswered, AllRouted, run_test-AllAnswered,
  run_test-AllRouted,
}
use ojs_conformance.Examples.{whole, operations}
use ojs_conformance.Examples.Steps.{codec, config}
use ojs_conformance.Examples.Verdicts.{wanted}

abbrev pub reply_created : Request → Sent
reply_created r =
    answered (record {
      status_code = pos 201;
      headers = [];
      body = text "{\"id\": 7}";
      duration_ms = pos 3;
    })

abbrev pub call : Call ℤ → Called
call c =
    rpc_result
      (record {
        response_json = text "{\"id\": 7}";
        grpc_code = code_ok;
        grpc_message = [];
        http_status_override = pos 201;
      })
      (pos 3)

abbrev pub server : Replies ℤ Request Sent
server = record {
  reply = λ stored s r. reply_created r;
  reply_in_group = λ stored group i s r. reply_created r;
}

abbrev pub grpc_server : Replies ℤ (Call ℤ) Called
grpc_server = record { reply = λ stored s c. call c; reply_in_group = λ stored group i s c. call c }

abbrev pub create : Step ℤ
create = record {
  id = text "create";
  action = text "POST";
  path = text "/ojs/v1/jobs";
  headers = [];
  body = some (text "{\"type\": \"email.reply_created\"}");
  delay_ms = pos 0;
  duration_ms = pos 0;
  assertions = some wanted;
  parallel_with = [];
}

abbrev pub wait : Step ℤ
wait = record create { id = text "wait"; action = text "wait" }

abbrev pub a_case : TestCase ℤ
a_case = record {
  test_id = text "L0-ENV-001";
  level = none;
  category = text "envelope";
  name = text "envelope";
  spec_ref = [];
  setup = none;
  steps = create ∷ wait ∷ [];
  teardown = none;
  file_path = [];
  level_int = pos 0;
}

a_case-AreSequential : AreSequential a_case.steps
a_case-AreSequential = (refl, (refl, tt))

a_case-AreDistinct : AreDistinct a_case.steps
unfolding str_eq
a_case-AreDistinct = ((refl, tt), (tt, tt))

abbrev url : Text
url = text "http://localhost:8080"

abbrev pub code_string : Code → Text
code_string c = text "OK"

run_test_passes :
    (run_test (http_exchange whole operations codec url config server) collect_group a_case).status
    ≡ pass
unfolding run_test execute_step decimal_ℤ
run_test_passes = refl

run_test-AllAnswered_example :
    ((run_test (http_exchange whole operations codec url config server) collect_group a_case).status
      ≡ pass)
    ↔ AllAnswered whole operations codec url config server [] (create ∷ wait ∷ [])
run_test-AllAnswered_example =
    run_test-AllAnswered whole operations codec url config server a_case a_case-AreSequential
      a_case-AreDistinct

run_test-AllRouted_example :
    ((run_test
        (grpc_exchange whole operations codec code_string config grpc_server)
        grpc_collect_group
        a_case).status
      ≡ pass)
    ↔ AllRouted whole operations codec code_string config grpc_server [] (create ∷ wait ∷ [])
run_test-AllRouted_example =
    run_test-AllRouted whole operations codec code_string config grpc_server a_case
      a_case-AreSequential a_case-AreDistinct

execute_step_iff_example :
    ((execute_step whole operations codec url config reply_created [] create).1 ≡ []) ↔ (
      (is_wait create.action ≡ true)
      ⊎ Answers whole operations codec config [] create
          (reply_created (request_of whole operations codec url [] create)))
execute_step_iff_example =
    execute_step_iff whole operations codec url config reply_created [] create

grpc_execute_step_iff_example :
    ((grpc_execute_step whole operations codec code_string config
        (λ m p b. call (m, p, b))
        []
        create).1
      ≡ [])
    ↔ ((is_wait create.action ≡ true)
        ⊎ Routed whole operations codec config
            (λ m p b. call (m, p, b))
            []
            create
            (resolve_route create.action (resolve_templates whole codec create.path [])))
grpc_execute_step_iff_example =
    grpc_execute_step_iff whole operations codec code_string config (λ m p b. call (m, p, b)) []
      create
