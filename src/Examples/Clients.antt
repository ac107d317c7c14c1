-- ===== src/Examples/Clients.antt =====
-- The theorems on the gRPC client, with a service that answers an enqueued job with the job 7, and
-- anything else with the code NotFound. A message of google.protobuf is the value that it stands for.
use ojs_conformance.Common.{
  Text, text, ℤ, pos, false, All, [], none, some, ◌≡◌, ◌↔◌, refl, str_eq, atoi, map, equal_fold,
  arith, to_upper,
}
use ojs_conformance.Json.{Value, Values, Entries, entry, end, get_entry}
use ojs_conformance.Adapter.{resolve_route, disambiguate, not_found, enqueue}
use ojs_conformance.Evaluate.Templates.{resolve_templates}
use ojs_conformance.Execute.Grpc.{grpc_execute_step}
use ojs_conformance.Client.{Protobuf, map_field}
use ojs_conformance.Client.Messages.{EnqueueRequest, EnqueueOptions, Job}
use ojs_conformance.Client.Options.{build_enqueue_options}
use ojs_conformance.Client.Options.Found.{options_found, build_enqueue_options-none_iff}
use ojs_conformance.Client.Options.Fields.{plain_from, build_enqueue_options-plain}
use ojs_conformance.Client.Bodies.{read_job}
use ojs_conformance.Client.Requests.{Request, build_request, enqueue_request}
use ojs_conformance.Client.Maps.{job_map}
use ojs_conformance.Client.Maps.Jobs.{job_map-read_job}
use ojs_conformance.Client.Services.{status_error, Answer, failed, replied, Service}
use ojs_conformance.Client.Calls.{call_rpc, timed}
use ojs_conformance.Client.Targets.{requested, requested-resource, resource_requests}
use ojs_conformance.Client.Statuses.{service_error, expected_status, grpc_execute_step-status}
use ojs_conformance.Examples.{whole, operations}
use ojs_conformance.Examples.Steps.{job_7, codec, config}
use ojs_conformance.Examples.Servers.{create, code_string}

abbrev fields_of : Value ℤ → Entries ℤ
fields_of (Value.object es) = es
fields_of _ = end

abbrev text_of : Value ℤ → Text
text_of (Value.string s) = s
text_of _ = []

abbrev protobuf : Protobuf ℤ (Value ℤ)
protobuf = record {
  int32_of = λ z. z;
  to_seconds = λ z. z;
  parse_duration = λ s. atoi s;
  parse_time = λ s. some (Value.string s);
  format_time = text_of;
  new_value = λ v. some v;
  new_struct = λ es. some (Value.object es);
  as_interface = λ v. v;
  as_map = fields_of;
  to_lower = λ s. s;
  to_upper = λ s. map to_upper s;
  job_state_value = λ s. none;
  job_state = λ z. text "JOB_STATE_available";
  worker_state = λ z. text "WORKER_STATE_running";
  health_status = λ z. text "HEALTH_STATUS_ok";
  workflow_state = λ z. text "WORKFLOW_STATE_running";
  step_state = λ z. text "WORKFLOW_STEP_STATE_waiting";
  conflict = λ c. text "UNIQUE_CONFLICT_ACTION_reject";
  code = λ c. text "NotFound";
}

abbrev a_job : EnqueueRequest ℤ (Value ℤ) → Job ℤ (Value ℤ)
a_job r = record {
  id = text "7";
  type = r.type;
  queue = text "default";
  state = pos 2;
  attempt = pos 0;
  priority = pos 0;
  max_attempts = pos 3;
  specversion = text "1.0";
  created_at = none;
  enqueued_at = none;
  scheduled_at = none;
  started_at = none;
  completed_at = none;
  expires_at = none;
  args = r.args;
  errors = [];
  tags = [];
  trace_id = [];
  workflow_id = [];
  result = none;
  meta = none;
  retry_policy = none;
  unique_policy = none;
}

abbrev unknown_id : {A : Type 0} → Answer A
unknown_id = failed (status_error not_found (text "not found"))

abbrev service : Service ℤ (Value ℤ)
service = record {
  enqueue = λ r. replied (some (a_job r));
  enqueue_batch = λ r. unknown_id;
  get_job = λ id. unknown_id;
  cancel_job = λ id reason. unknown_id;
  fetch = λ r. replied [];
  ack = λ r. unknown_id;
  nack = λ r. unknown_id;
  heartbeat = λ r. unknown_id;
  list_queues = replied [];
  queue_stats = λ q. unknown_id;
  pause_queue = λ q. unknown_id;
  resume_queue = λ q. unknown_id;
  list_dead_letter = λ r. unknown_id;
  retry_dead_letter = λ id. unknown_id;
  delete_dead_letter = λ id. unknown_id;
  register_cron = λ r. unknown_id;
  unregister_cron = λ name. unknown_id;
  list_cron = replied [];
  create_workflow = λ r. unknown_id;
  get_workflow = λ id. unknown_id;
  cancel_workflow = λ id. unknown_id;
  health = unknown_id;
  manifest = unknown_id;
}

abbrev nested : Entries ℤ
nested =
    entry (text "queue") (Value.string (text "mail"))
      (entry (text "priority") (Value.float64 (pos 0)) end)

-- A body whose options have the priority 0, and that has the priority 5 beside them.
abbrev body : Entries ℤ
body = entry (text "type") (Value.string (text "email.send")) (
    entry (text "args") (Value.array (Values.cons (Value.string (text "a")) Values.nil)) (
      entry (text "priority") (Value.float64 (pos 5))
        (entry (text "options") (Value.object nested) end)))

abbrev options : EnqueueOptions ℤ (Value ℤ)
options = record {
  queue = text "mail";
  priority = pos 5;
  max_attempts = pos 0;
  tags = [];
  trace_id = [];
  delay_until = none;
  timeout = none;
  ttl = none;
  retry = none;
  unique = none;
  meta = none;
}

body_options : build_enqueue_options whole protobuf body ≡ some options
unfolding build_enqueue_options
body_options = refl

requested-resource_example :
    All
      (λ (action, path, request). requested whole protobuf action path end ≡ some request)
      (resource_requests whole protobuf (text "7") end)
requested-resource_example = requested-resource whole protobuf (text "7") end refl

build_enqueue_options-none_iff_example :
    (build_enqueue_options whole protobuf end ≡ none) ↔ (options_found whole protobuf end ≡ false)
build_enqueue_options-none_iff_example = build_enqueue_options-none_iff whole protobuf end

build_enqueue_options-plain_example :
    (text "mail", pos 5, pos 0) ≡ plain_from whole protobuf body (map_field (text "options") body)
build_enqueue_options-plain_example = build_enqueue_options-plain whole protobuf body body_options

job_map-read_job_example :
    (get_entry (text "type") (job_map whole protobuf (a_job (read_job whole protobuf body)))
      ≡ get_entry (text "type") body)
    × (get_entry (text "args") (job_map whole protobuf (a_job (read_job whole protobuf body)))
        ≡ get_entry (text "args") body)
unfolding str_eq
job_map-read_job_example =
    job_map-read_job whole protobuf body (text "email.send")
      (Values.cons (Value.string (text "a")) Values.nil) refl refl (λ e. ground arith)
      ((Value.string (text "a"), refl, refl), tt) (a_job (read_job whole protobuf body)) refl refl

abbrev created_request : Request ℤ (Value ℤ)
created_request = enqueue_request (read_job whole protobuf job_7)

grpc_execute_step-status_example :
    (grpc_execute_step whole operations codec code_string config
      (λ n path b.
        timed whole codec protobuf (pos 3) (call_rpc whole codec protobuf service n path b))
      []
      create).0.status_code
    ≡ expected_status enqueue (service_error service created_request)
unfolding equal_fold resolve_route resolve_templates disambiguate build_request
grpc_execute_step-status_example =
    grpc_execute_step-status whole codec protobuf service operations code_string config [] create
      (pos 3) refl refl refl refl
