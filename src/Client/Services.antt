-- ===== src/Client/Services.antt =====
-- The service behind the connection of runner/grpc/client.go. `Service` is the client of the generated
-- code (ojsv1.OJSServiceClient): a function for each of its methods, from the request to the error or
-- the response.
use ojs_conformance.Common.{Text, Bool, List, Option}
use ojs_conformance.Adapter.{Code}
use ojs_conformance.Client.Messages.{
  EnqueueRequest, EnqueueBatchRequest, FetchRequest, AckRequest, NackRequest, HeartbeatRequest,
  ListDeadLetterRequest, RegisterCronRequest, CreateWorkflowRequest, Job, Workflow,
  EnqueueBatchResponse, NackResponse, HeartbeatResponse, QueueInfo, QueueStatsResponse,
  ListDeadLetterResponse, RegisterCronResponse, CronEntry, HealthResponse, ManifestResponse,
}

-- The error of a call: one that status.FromError reads, and any other by its message.
pub data CallError : Type 0 where
  status_error : Code → Text → CallError
  plain_error : Text → CallError

pub data Answer (A : Type 0) : Type 0 where
  failed : CallError → Answer A
  replied : A → Answer A

-- A response with one field is this field; one that is not read is left out.
pub data Empty : Type 0 where
  empty : Empty

pub record Service (Num W : Type 0) : Type 0 where
  pub enqueue : EnqueueRequest Num W → Answer (Option (Job Num W))
  pub enqueue_batch : EnqueueBatchRequest Num W → Answer (EnqueueBatchResponse Num W)
  pub get_job : Text → Answer (Option (Job Num W))
  -- the job and the reason
  pub cancel_job : Text → Text → Answer (Option (Job Num W))
  pub fetch : FetchRequest → Answer (List (Job Num W))
  pub ack : AckRequest W → Answer Bool
  pub nack : NackRequest → Answer (NackResponse W)
  pub heartbeat : HeartbeatRequest → Answer (HeartbeatResponse W)
  pub list_queues : Answer (List QueueInfo)
  pub queue_stats : Text → Answer (QueueStatsResponse Num)
  pub pause_queue : Text → Answer Empty
  pub resume_queue : Text → Answer Empty
  pub list_dead_letter : ListDeadLetterRequest → Answer (ListDeadLetterResponse Num W)
  pub retry_dead_letter : Text → Answer (Option (Job Num W))
  pub delete_dead_letter : Text → Answer Empty
  pub register_cron : RegisterCronRequest Num W → Answer (RegisterCronResponse W)
  pub unregister_cron : Text → Answer Empty
  pub list_cron : Answer (List (CronEntry W))
  pub create_workflow : CreateWorkflowRequest Num W → Answer (Option (Workflow W))
  pub get_workflow : Text → Answer (Option (Workflow W))
  pub cancel_workflow : Text → Answer (Option (Workflow W))
  pub health : Answer (HealthResponse W)
  pub manifest : Answer (ManifestResponse Num)
