-- ===== src/Client/Statuses.antt =====
-- Which methods CallRPC supports, and the status that a step of the gRPC runner reports for the
-- answer of the service.
use ojs_conformance.Common.{
  Text, ℤ, pos, false, Option, none, some, ◌≡◌, subst, refl, arith, if◌then◌else◌,
}
use ojs_conformance.Json.{Runtime, Entries}
use ojs_conformance.Timing.{Arithmetic, TimingConfig}
use ojs_conformance.Schema.{Step}
use ojs_conformance.Runner.{Stored}
use ojs_conformance.Evaluate.{Codec}
use ojs_conformance.Evaluate.Templates.{resolve_templates}
use ojs_conformance.Execute.{is_wait}
use ojs_conformance.Execute.Grpc.{http_status, body_of, grpc_conclude, grpc_execute_step}
use ojs_conformance.Adapter.{
  Method, manifest, health, enqueue_batch, enqueue, get_job, cancel_job, fetch, ack, nack,
  heartbeat, list_queues, queue_stats, pause_or_resume_queue, pause_queue, resume_queue,
  list_dead_letter, retry_dead_letter, delete_dead_letter, list_cron, register_cron,
  unregister_cron, create_workflow, get_workflow, cancel_workflow, save_checkpoint,
  get_checkpoint_or_job, delete_checkpoint_or_cancel, get_checkpoint, delete_checkpoint, Code,
  resolve_route, disambiguate, rpc_creates_resource, grpc_code_to_http_status,
}
use ojs_conformance.Client.{Protobuf}
use ojs_conformance.Client.Requests.{
  Request, enqueue_request, enqueue_batch_request, get_job_request, cancel_job_request,
  fetch_request, ack_request, nack_request, heartbeat_request, list_queues_request,
  queue_stats_request, pause_queue_request, resume_queue_request, list_dead_letter_request,
  retry_dead_letter_request, delete_dead_letter_request, register_cron_request,
  unregister_cron_request, list_cron_request, create_workflow_request, get_workflow_request,
  cancel_workflow_request, health_request, manifest_request, build_request,
}
use ojs_conformance.Client.Services.{
  CallError, status_error, plain_error, Answer, failed, replied, Service,
}
use ojs_conformance.Client.Calls.{grpc_error, answer, send_request, call_rpc, entries_of, timed}

abbrev error_in : {A : Type 0} → Answer A → Option CallError
error_in (failed e) = some e
error_in (replied a) = none

-- The error that the service answers a request with, if it does.
unfoldable pub service_error : {Num W : Type 0} → Service Num W → Request Num W → Option CallError
service_error S (enqueue_request r) = error_in (S.enqueue r)
service_error S (enqueue_batch_request r) = error_in (S.enqueue_batch r)
service_error S (get_job_request id) = error_in (S.get_job id)
service_error S (cancel_job_request id reason) = error_in (S.cancel_job id reason)
service_error S (fetch_request r) = error_in (S.fetch r)
service_error S (ack_request r) = error_in (S.ack r)
service_error S (nack_request r) = error_in (S.nack r)
service_error S (heartbeat_request r) = error_in (S.heartbeat r)
service_error S list_queues_request = error_in S.list_queues
service_error S (queue_stats_request q) = error_in (S.queue_stats q)
service_error S (pause_queue_request q) = error_in (S.pause_queue q)
service_error S (resume_queue_request q) = error_in (S.resume_queue q)
service_error S (list_dead_letter_request r) = error_in (S.list_dead_letter r)
service_error S (retry_dead_letter_request id) = error_in (S.retry_dead_letter id)
service_error S (delete_dead_letter_request id) = error_in (S.delete_dead_letter id)
service_error S (register_cron_request r) = error_in (S.register_cron r)
service_error S (unregister_cron_request name) = error_in (S.unregister_cron name)
service_error S list_cron_request = error_in S.list_cron
service_error S (create_workflow_request r) = error_in (S.create_workflow r)
service_error S (get_workflow_request id) = error_in (S.get_workflow id)
service_error S (cancel_workflow_request id) = error_in (S.cancel_workflow id)
service_error S health_request = error_in S.health
service_error S manifest_request = error_in S.manifest

-- The status that a client over HTTP would have got from the service: 201 for what was created.
unfoldable pub expected_status : Method → Option CallError → ℤ
unfolding rpc_creates_resource grpc_code_to_http_status
expected_status m none = pos (if rpc_creates_resource m then 201 else 200)
expected_status m (some (status_error c message)) = pos (grpc_code_to_http_status c)
expected_status m (some (plain_error message)) = pos 500

answer_status :
    {Num W A : Type 0}
    → (R : Runtime Num) (C : Codec Num) (P : Protobuf Num W) (a : Answer A) (m : Method) (z : ℤ)
    → (f : A → Entries Num) → z ≡ (if rpc_creates_resource m then pos 201 else pos 0)
    → http_status (answer R C P a z f) ≡ expected_status m (error_in a)
unfolding http_status grpc_error expected_status
answer_status R C P (failed (status_error c message)) m z f h = ground arith
answer_status R C P (failed (plain_error message)) m z f h = refl
answer_status R C P (replied a) m z f h = ground arith

module _ {Num W : Type 0} (R : Runtime Num) (C : Codec Num) (P : Protobuf Num W)
    (S : Service Num W) where
  -- The status of a request that a method makes.
  abbrev Status : Method → Request Num W → Type 0
  Status m r = http_status (send_request R C P S r) ≡ expected_status m (service_error S r)

  abbrev Statuses : Method → Option (Request Num W) → Type 0
  Statuses m none = Unit {0}
  Statuses m (some r) = Status m r

  send_request-status :
      (m : Method) (path : Text) (body : Entries Num) → Statuses m (build_request R P m path body)
  unfolding send_request service_error build_request rpc_creates_resource
  send_request-status enqueue path body = answer_status R C P (S.enqueue _) enqueue (pos 201) _ refl
  send_request-status enqueue_batch path body =
      answer_status R C P (S.enqueue_batch _) enqueue_batch (pos 201) _ refl
  send_request-status get_job path body = answer_status R C P (S.get_job _) get_job (pos 0) _ refl
  send_request-status cancel_job path body =
      answer_status R C P (S.cancel_job _ _) cancel_job (pos 0) _ refl
  send_request-status fetch path body = answer_status R C P (S.fetch _) fetch (pos 0) _ refl
  send_request-status ack path body = answer_status R C P (S.ack _) ack (pos 0) _ refl
  send_request-status nack path body = answer_status R C P (S.nack _) nack (pos 0) _ refl
  send_request-status heartbeat path body =
      answer_status R C P (S.heartbeat _) heartbeat (pos 0) _ refl
  send_request-status list_queues path body =
      answer_status R C P S.list_queues list_queues (pos 0) _ refl
  send_request-status queue_stats path body =
      answer_status R C P (S.queue_stats _) queue_stats (pos 0) _ refl
  send_request-status pause_queue path body =
      answer_status R C P (S.pause_queue _) pause_queue (pos 0) _ refl
  send_request-status resume_queue path body =
      answer_status R C P (S.resume_queue _) resume_queue (pos 0) _ refl
  send_request-status list_dead_letter path body =
      answer_status R C P (S.list_dead_letter _) list_dead_letter (pos 0) _ refl
  send_request-status retry_dead_letter path body =
      answer_status R C P (S.retry_dead_letter _) retry_dead_letter (pos 0) _ refl
  send_request-status delete_dead_letter path body =
      answer_status R C P (S.delete_dead_letter _) delete_dead_letter (pos 0) _ refl
  send_request-status register_cron path body =
      answer_status R C P (S.register_cron _) register_cron (pos 201) _ refl
  send_request-status unregister_cron path body =
      answer_status R C P (S.unregister_cron _) unregister_cron (pos 0) _ refl
  send_request-status list_cron path body = answer_status R C P S.list_cron list_cron (pos 0) _ refl
  send_request-status create_workflow path body =
      answer_status R C P (S.create_workflow _) create_workflow (pos 201) _ refl
  send_request-status get_workflow path body =
      answer_status R C P (S.get_workflow _) get_workflow (pos 0) _ refl
  send_request-status cancel_workflow path body =
      answer_status R C P (S.cancel_workflow _) cancel_workflow (pos 0) _ refl
  send_request-status health path body = answer_status R C P S.health health (pos 0) _ refl
  send_request-status manifest path body = answer_status R C P S.manifest manifest (pos 0) _ refl
  send_request-status pause_or_resume_queue path body = tt
  send_request-status save_checkpoint path body = tt
  send_request-status get_checkpoint_or_job path body = tt
  send_request-status delete_checkpoint_or_cancel path body = tt
  send_request-status get_checkpoint path body = tt
  send_request-status delete_checkpoint path body = tt

  module _ (A : Arithmetic Num) (code_string : Code → Text) (tc : TimingConfig Num)
      (stored : Stored Num) (step : Step Num) (duration_ms : ℤ) {route m : Method}
      {request : Request Num W} where
    -- A step that is no WAIT, and that has a route to a method with a request, reports the status
    -- that an HTTP server would have given: if the service replies, 201 for the methods that create
    -- a resource and 200 for the others; if it answers with a gRPC status, the status of its code;
    -- if with another error, 500.
    pub grpc_execute_step-status :
        is_wait step.action ≡ false
        → resolve_route step.action (resolve_templates R C step.path stored) ≡ some route
        → disambiguate route (resolve_templates R C step.path stored) ≡ some m
        → build_request R P m
            (resolve_templates R C step.path stored)
            (entries_of (body_of R A C stored step.body))
          ≡ some request
        → (grpc_execute_step R A C code_string tc
            (λ n path body. timed R C P duration_ms (call_rpc R C P S n path body))
            stored
            step).0.status_code
          ≡ expected_status m (service_error S request)
    unfolding grpc_execute_step call_rpc grpc_conclude
    grpc_execute_step-status h1 h2 h3 h4 =
        rw (h1, grpc_execute_step)
          (rw (h2, grpc_execute_step)
            (rw (h3, call_rpc)
              (rw (h4, call_rpc)
                (subst (Statuses m) h4
                  (send_request-status m _ (entries_of (body_of R A C stored step.body)))))))
