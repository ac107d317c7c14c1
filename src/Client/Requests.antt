-- ===== src/Client/Requests.antt =====
-- The requests that the methods of OJSClient (runner/grpc/client.go) make.
use ojs_conformance.Common.{Text, text, Option, none, some}
use ojs_conformance.Json.{Runtime, Entries}
use ojs_conformance.Adapter.{
  Method, manifest, health, enqueue_batch, enqueue, get_job, cancel_job, fetch, ack, nack,
  heartbeat, list_queues, queue_stats, pause_queue, resume_queue, list_dead_letter,
  retry_dead_letter, delete_dead_letter, list_cron, register_cron, unregister_cron, create_workflow,
  get_workflow, cancel_workflow,
}
use ojs_conformance.Client.{Protobuf, seconds, extract_id_from_path, trim_suffix}
use ojs_conformance.Client.Messages.{
  EnqueueRequest, EnqueueBatchRequest, FetchRequest, AckRequest, NackRequest, HeartbeatRequest,
  ListDeadLetterRequest, RegisterCronRequest, CreateWorkflowRequest,
}
use ojs_conformance.Client.Bodies.{
  job_id, queue_name, dead_letter_id, workflow_id, string_of, read_args, read_job, read_jobs,
  read_steps, read_batch, read_fetch, read_ack, read_nack, read_heartbeat, read_dead_letters,
  read_cron, read_workflow,
}

-- The requests, by the method of the service; a request with one field is this field.
pub data Request (Num W : Type 0) : Type 0 where
  enqueue_request : EnqueueRequest Num W → Request Num W
  enqueue_batch_request : EnqueueBatchRequest Num W → Request Num W
  get_job_request : Text → Request Num W
  cancel_job_request : Text → Text → Request Num W
  fetch_request : FetchRequest → Request Num W
  ack_request : AckRequest W → Request Num W
  nack_request : NackRequest → Request Num W
  heartbeat_request : HeartbeatRequest → Request Num W
  list_queues_request : Request Num W
  queue_stats_request : Text → Request Num W
  pause_queue_request : Text → Request Num W
  resume_queue_request : Text → Request Num W
  list_dead_letter_request : ListDeadLetterRequest → Request Num W
  retry_dead_letter_request : Text → Request Num W
  delete_dead_letter_request : Text → Request Num W
  register_cron_request : RegisterCronRequest Num W → Request Num W
  unregister_cron_request : Text → Request Num W
  list_cron_request : Request Num W
  create_workflow_request : CreateWorkflowRequest Num W → Request Num W
  get_workflow_request : Text → Request Num W
  cancel_workflow_request : Text → Request Num W
  health_request : Request Num W
  manifest_request : Request Num W

module _ {Num W : Type 0} (R : Runtime Num) (P : Protobuf Num W) where
  -- The request of a method, as its function builds it; `none` for the methods that CallRPC does not
  -- know.
  unfoldable pub build_request : Method → Text → Entries Num → Option (Request Num W)
  unfolding read_job read_jobs read_steps read_args seconds extract_id_from_path trim_suffix
  build_request enqueue path body = some (enqueue_request (read_job R P body))
  build_request enqueue_batch path body = some (enqueue_batch_request (read_batch R P body))
  build_request get_job path body = some (get_job_request (job_id path))
  build_request cancel_job path body =
      some (cancel_job_request (job_id path) (string_of (text "reason") body))
  build_request fetch path body = some (fetch_request (read_fetch R P body))
  build_request ack path body = some (ack_request (read_ack R P body))
  build_request nack path body = some (nack_request (read_nack R P body))
  build_request heartbeat path body = some (heartbeat_request (read_heartbeat R P body))
  build_request list_queues path body = some list_queues_request
  build_request queue_stats path body = some (queue_stats_request (queue_name path (text "/stats")))
  build_request pause_queue path body = some (pause_queue_request (queue_name path (text "/pause")))
  build_request resume_queue path body =
      some (resume_queue_request (queue_name path (text "/resume")))
  build_request list_dead_letter path body =
      some (list_dead_letter_request (read_dead_letters R P body))
  build_request retry_dead_letter path body =
      some (retry_dead_letter_request (trim_suffix (dead_letter_id path) (text "/retry")))
  build_request delete_dead_letter path body =
      some (delete_dead_letter_request (dead_letter_id path))
  build_request register_cron path body = some (register_cron_request (read_cron R P body))
  build_request unregister_cron path body =
      some (unregister_cron_request (extract_id_from_path path (text "/ojs/v1/cron/")))
  build_request list_cron path body = some list_cron_request
  build_request create_workflow path body = some (create_workflow_request (read_workflow R P body))
  build_request get_workflow path body = some (get_workflow_request (workflow_id path))
  build_request cancel_workflow path body = some (cancel_workflow_request (workflow_id path))
  build_request health path body = some health_request
  build_request manifest path body = some manifest_request
  build_request _ path body = none
