-- ===== src/Client/Calls.antt =====
-- CallRPC of runner/grpc/client.go, with the call of each method and the result it makes of the answer.
use ojs_conformance.Common.{
  Text, text, ℤ, pos, Bool, List, [], ◌++◌, Option, none, some, ◌⊎◌, inl, inr, ◌>>=◌,
}
use ojs_conformance.Json.{Runtime, Value, Entries, entry, end}
use ojs_conformance.Adapter.{
  Method, manifest, health, enqueue_batch, enqueue, get_job, cancel_job, fetch, ack, nack,
  heartbeat, list_queues, queue_stats, pause_or_resume_queue, pause_queue, resume_queue,
  list_dead_letter, retry_dead_letter, delete_dead_letter, list_cron, register_cron,
  unregister_cron, create_workflow, get_workflow, cancel_workflow, save_checkpoint,
  get_checkpoint_or_job, delete_checkpoint_or_cancel, get_checkpoint, delete_checkpoint, code_ok,
  internal,
}
use ojs_conformance.Evaluate.{Codec}
use ojs_conformance.Execute.Grpc.{RpcResult, Called, rpc_error, rpc_result}
use ojs_conformance.Client.{Protobuf}
use ojs_conformance.Client.Messages.{
  Job, Workflow, EnqueueBatchResponse, NackResponse, HeartbeatResponse, QueueInfo,
  QueueStatsResponse, ListDeadLetterResponse, RegisterCronResponse, CronEntry, HealthResponse,
}
use ojs_conformance.Client.Services.{
  CallError, status_error, plain_error, Answer, failed, replied, Empty, Service,
}
use ojs_conformance.Client.Requests.{
  Request, enqueue_request, enqueue_batch_request, get_job_request, cancel_job_request,
  fetch_request, ack_request, nack_request, heartbeat_request, list_queues_request,
  queue_stats_request, pause_queue_request, resume_queue_request, list_dead_letter_request,
  retry_dead_letter_request, delete_dead_letter_request, register_cron_request,
  unregister_cron_request, list_cron_request, create_workflow_request, get_workflow_request,
  cancel_workflow_request, health_request, manifest_request, build_request,
}
use ojs_conformance.Client.Maps.{
  proto_job_to_map, jobs_value, proto_workflow_to_map, list_of, put_some, time_value, enum_value,
  queue_map, stats_map, cron_map, manifest_map, values_of, job_map, workflow_map,
}

-- The names of the methods, as the routes have them.
unfoldable pub method_name : Method → Text
method_name manifest = text "Manifest"
method_name health = text "Health"
method_name enqueue_batch = text "EnqueueBatch"
method_name enqueue = text "Enqueue"
method_name get_job = text "GetJob"
method_name cancel_job = text "CancelJob"
method_name fetch = text "Fetch"
method_name ack = text "Ack"
method_name nack = text "Nack"
method_name heartbeat = text "Heartbeat"
method_name list_queues = text "ListQueues"
method_name queue_stats = text "QueueStats"
method_name pause_or_resume_queue = text "PauseOrResumeQueue"
method_name pause_queue = text "PauseQueue"
method_name resume_queue = text "ResumeQueue"
method_name list_dead_letter = text "ListDeadLetter"
method_name retry_dead_letter = text "RetryDeadLetter"
method_name delete_dead_letter = text "DeleteDeadLetter"
method_name list_cron = text "ListCron"
method_name register_cron = text "RegisterCron"
method_name unregister_cron = text "UnregisterCron"
method_name create_workflow = text "CreateWorkflow"
method_name get_workflow = text "GetWorkflow"
method_name cancel_workflow = text "CancelWorkflow"
method_name save_checkpoint = text "SaveCheckpoint"
method_name get_checkpoint_or_job = text "GetCheckpointOrJob"
method_name delete_checkpoint_or_cancel = text "DeleteCheckpointOrCancel"
method_name get_checkpoint = text "GetCheckpoint"
method_name delete_checkpoint = text "DeleteCheckpoint"

-- The empty name is `none`.
abbrev pub name_of : Option Method → Text
unfolding method_name
name_of none = []
name_of (some m) = method_name m

abbrev pub entries_of : {Num : Type 0} → Option (Entries Num) → Entries Num
entries_of none = end
entries_of (some es) = es

module _ {Num W : Type 0} (R : Runtime Num) (C : Codec Num) (P : Protobuf Num W) where
  -- grpcError
  unfoldable pub grpc_error : CallError → RpcResult
  grpc_error (plain_error message) = record {
    response_json = [];
    grpc_code = internal;
    grpc_message = message;
    http_status_override = pos 0;
  }
  grpc_error (status_error c message) = record {
    response_json = C.marshal (
        Value.object (
          entry (text "error")
            (Value.object (
              entry (text "code") (Value.string (P.code c))
                (entry (text "message") (Value.string message) end)))
            end));
    grpc_code = c;
    grpc_message = message;
    http_status_override = pos 0;
  }

  -- The result of a call, by the map that is made of the response.
  abbrev pub answer : {A : Type 0} → Answer A → ℤ → (A → Entries Num) → RpcResult
  answer (failed e) override f = grpc_error e
  answer (replied a) override f = record {
    response_json = C.marshal (Value.object (f a));
    grpc_code = code_ok;
    grpc_message = [];
    http_status_override = override;
  }

  abbrev pub job_answer : Option (Job Num W) → Entries Num
  job_answer job = entry (text "job") (proto_job_to_map R P job) end

  abbrev pub workflow_answer : Option (Workflow W) → Entries Num
  workflow_answer w = entry (text "workflow") (proto_workflow_to_map P w) end

  abbrev pub batch_answer : EnqueueBatchResponse Num W → Entries Num
  batch_answer a =
      entry (text "jobs") (jobs_value R P a.jobs) (entry (text "count") (Value.int32 a.count) end)

  abbrev pub jobs_answer : List (Job Num W) → Entries Num
  jobs_answer jobs = entry (text "jobs") (jobs_value R P jobs) end

  abbrev pub ack_answer : Bool → Entries Num
  ack_answer done = entry (text "acknowledged") (Value.bool done) end

  abbrev pub nack_answer : NackResponse W → Entries Num
  nack_answer a =
      put_some (time_value P) (text "next_attempt_at") a.next_attempt_at
        (entry (text "state") (enum_value P (P.job_state a.state) (text "JOB_STATE_")) end)

  abbrev pub heartbeat_answer : HeartbeatResponse W → Entries Num
  heartbeat_answer a = put_some (time_value P) (text "new_deadline") a.new_deadline (
      entry (text "directed_state")
        (enum_value P (P.worker_state a.directed_state) (text "WORKER_STATE_")) end)

  abbrev pub queues_answer : List QueueInfo → Entries Num
  queues_answer qs = entry (text "queues") (list_of queue_map qs) end

  abbrev pub stats_answer : QueueStatsResponse Num → Entries Num
  stats_answer a =
      put_some stats_map (text "stats") a.stats (entry (text "queue") (Value.string a.queue) end)

  abbrev pub dead_letters_answer : ListDeadLetterResponse Num W → Entries Num
  dead_letters_answer a =
      entry (text "jobs") (jobs_value R P a.jobs)
        (entry (text "total_count") (Value.int32 a.total_count) end)

  abbrev pub cron_answer : RegisterCronResponse W → Entries Num
  cron_answer a =
      put_some (time_value P) (text "next_run_at") a.next_run_at
        (entry (text "name") (Value.string a.name) end)

  abbrev pub entries_answer : List (CronEntry W) → Entries Num
  entries_answer es = entry (text "entries") (list_of (cron_map P) es) end

  abbrev pub health_answer : HealthResponse W → Entries Num
  health_answer a =
      put_some (time_value P) (text "timestamp") a.timestamp (
        entry (text "status") (enum_value P (P.health_status a.status) (text "HEALTH_STATUS_")) end)

  abbrev pub no_answer : Empty → Entries Num
  no_answer _ = end

  -- The call of the service, and the result that its function makes of the answer.
  unfoldable pub send_request : Service Num W → Request Num W → RpcResult
  unfolding grpc_error job_map workflow_map enum_value values_of
  send_request S (enqueue_request r) = answer (S.enqueue r) (pos 201) job_answer
  send_request S (enqueue_batch_request r) = answer (S.enqueue_batch r) (pos 201) batch_answer
  send_request S (get_job_request id) = answer (S.get_job id) (pos 0) job_answer
  send_request S (cancel_job_request id reason) = answer (S.cancel_job id reason) (pos 0) job_answer
  send_request S (fetch_request r) = answer (S.fetch r) (pos 0) jobs_answer
  send_request S (ack_request r) = answer (S.ack r) (pos 0) ack_answer
  send_request S (nack_request r) = answer (S.nack r) (pos 0) nack_answer
  send_request S (heartbeat_request r) = answer (S.heartbeat r) (pos 0) heartbeat_answer
  send_request S list_queues_request = answer S.list_queues (pos 0) queues_answer
  send_request S (queue_stats_request q) = answer (S.queue_stats q) (pos 0) stats_answer
  send_request S (pause_queue_request q) = answer (S.pause_queue q) (pos 0) no_answer
  send_request S (resume_queue_request q) = answer (S.resume_queue q) (pos 0) no_answer
  send_request S (list_dead_letter_request r) =
      answer (S.list_dead_letter r) (pos 0) dead_letters_answer
  send_request S (retry_dead_letter_request id) = answer (S.retry_dead_letter id) (pos 0) job_answer
  send_request S (delete_dead_letter_request id) =
      answer (S.delete_dead_letter id) (pos 0) no_answer
  send_request S (register_cron_request r) = answer (S.register_cron r) (pos 201) cron_answer
  send_request S (unregister_cron_request name) = answer (S.unregister_cron name) (pos 0) no_answer
  send_request S list_cron_request = answer S.list_cron (pos 0) entries_answer
  send_request S (create_workflow_request r) =
      answer (S.create_workflow r) (pos 201) workflow_answer
  send_request S (get_workflow_request id) = answer (S.get_workflow id) (pos 0) workflow_answer
  send_request S (cancel_workflow_request id) =
      answer (S.cancel_workflow id) (pos 0) workflow_answer
  send_request S health_request = answer S.health (pos 0) health_answer
  send_request S manifest_request = answer S.manifest (pos 0) manifest_map

  -- CallRPC: an error, or the result
  unfoldable pub call_rpc :
      Service Num W → Option Method → Text → Option (Entries Num) → Text ⊎ RpcResult
  unfolding method_name build_request send_request
  call_rpc S m path body =
      let unsupported = inl (text "unsupported gRPC method: " ++ name_of m) in
      elim (m >>= λ known. build_request R P known path (entries_of body)) [
        | none ↦ unsupported
        | some r ↦ inr (send_request S r)
      ]

  -- The call as a step of the runner sees it, with the milliseconds that it took.
  abbrev pub timed : ℤ → Text ⊎ RpcResult → Called
  timed duration_ms (inl e) = rpc_error e
  timed duration_ms (inr r) = rpc_result r duration_ms
