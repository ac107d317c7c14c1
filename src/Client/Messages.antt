-- ===== src/Client/Messages.antt =====
-- The messages of the generated code (ojsv1) that runner/grpc/client.go builds and reads, with the
-- fields that it uses. `W` is the type of the messages of google.protobuf that it passes on (Value,
-- Struct, Timestamp); a Duration is its number of nanoseconds, and an enumeration its number. A field
-- that only goes to encoding/json is a `Value`.
use ojs_conformance.Common.{Text, ℤ, List, Option, Bool}
use ojs_conformance.Json.{Value}

pub data Conflict : Type 0 where
  unspecified reject replace ignore replace_except_schedule : Conflict
  other_conflict : ℤ → Conflict

pub record RetryPolicy (Num : Type 0) : Type 0 where
  pub max_attempts : ℤ
  pub initial_interval : Option ℤ
  pub max_interval : Option ℤ
  pub backoff_coefficient : Num

pub record UniquePolicy : Type 0 where
  pub key : List Text
  pub period : Option ℤ
  pub on_conflict : Conflict
  pub states : List ℤ

pub record EnqueueOptions (Num W : Type 0) : Type 0 where
  pub queue : Text
  pub priority : ℤ
  pub max_attempts : ℤ
  pub tags : List Text
  pub trace_id : Text
  pub delay_until : Option W
  pub timeout : Option ℤ
  pub ttl : Option ℤ
  pub retry : Option (RetryPolicy Num)
  pub unique : Option UniquePolicy
  pub meta : Option W

-- EnqueueRequest and BatchJobEntry
pub record EnqueueRequest (Num W : Type 0) : Type 0 where
  pub type : Text
  pub args : List W
  pub options : Option (EnqueueOptions Num W)

pub record EnqueueBatchRequest (Num W : Type 0) : Type 0 where
  pub jobs : List (EnqueueRequest Num W)
  pub default_options : Option (EnqueueOptions Num W)

pub record FetchRequest : Type 0 where
  pub queues : List Text
  pub worker_id : Text
  pub count : ℤ

pub record AckRequest (W : Type 0) : Type 0 where
  pub job_id : Text
  pub result : Option W

pub record JobError : Type 0 where
  pub message : Text
  pub code : Text
  pub attempt : ℤ

pub record NackRequest : Type 0 where
  pub job_id : Text
  pub error : Option JobError

pub record HeartbeatRequest : Type 0 where
  pub id : Text
  pub worker_id : Text
  pub extend_by : Option ℤ

pub record ListDeadLetterRequest : Type 0 where
  pub queue : Text
  pub limit : ℤ

pub record RegisterCronRequest (Num W : Type 0) : Type 0 where
  pub name : Text
  pub cron : Text
  pub timezone : Text
  pub type : Text
  pub args : List W
  pub options : Option (EnqueueOptions Num W)

pub record StepRequest (Num W : Type 0) : Type 0 where
  pub id : Text
  pub type : Text
  pub depends_on : List Text
  pub args : List W
  pub options : Option (EnqueueOptions Num W)

pub record CreateWorkflowRequest (Num W : Type 0) : Type 0 where
  pub name : Text
  pub steps : List (StepRequest Num W)

pub record Job (Num W : Type 0) : Type 0 where
  pub id : Text
  pub type : Text
  pub queue : Text
  pub state : ℤ
  pub attempt : ℤ
  pub priority : ℤ
  pub max_attempts : ℤ
  pub specversion : Text
  pub created_at : Option W
  pub enqueued_at : Option W
  pub scheduled_at : Option W
  pub started_at : Option W
  pub completed_at : Option W
  pub expires_at : Option W
  pub args : List W
  pub errors : List JobError
  pub tags : List Text
  pub trace_id : Text
  pub workflow_id : Text
  pub result : Option W
  pub meta : Option W
  pub retry_policy : Option (RetryPolicy Num)
  pub unique_policy : Option UniquePolicy

pub record WorkflowStep : Type 0 where
  pub id : Text
  pub type : Text
  pub state : ℤ
  pub job_id : Text
  pub depends_on : List Text

pub record Workflow (W : Type 0) : Type 0 where
  pub id : Text
  pub name : Text
  pub state : ℤ
  pub created_at : Option W
  pub completed_at : Option W
  pub steps : List WorkflowStep

pub record EnqueueBatchResponse (Num W : Type 0) : Type 0 where
  pub jobs : List (Job Num W)
  pub count : ℤ

pub record NackResponse (W : Type 0) : Type 0 where
  pub state : ℤ
  pub next_attempt_at : Option W

pub record HeartbeatResponse (W : Type 0) : Type 0 where
  pub directed_state : ℤ
  pub new_deadline : Option W

pub record QueueInfo : Type 0 where
  pub name : Text
  pub paused : Bool

pub record QueueStats (Num : Type 0) : Type 0 where
  pub available : Value Num
  pub active : Value Num
  pub scheduled : Value Num
  pub retryable : Value Num
  pub dead : Value Num
  pub paused : Value Num

pub record QueueStatsResponse (Num : Type 0) : Type 0 where
  pub queue : Text
  pub stats : Option (QueueStats Num)

pub record ListDeadLetterResponse (Num W : Type 0) : Type 0 where
  pub jobs : List (Job Num W)
  pub total_count : ℤ

pub record RegisterCronResponse (W : Type 0) : Type 0 where
  pub name : Text
  pub next_run_at : Option W

pub record CronEntry (W : Type 0) : Type 0 where
  pub name : Text
  pub cron : Text
  pub timezone : Text
  pub type : Text
  pub next_run_at : Option W
  pub last_run_at : Option W

pub record HealthResponse (W : Type 0) : Type 0 where
  pub status : ℤ
  pub timestamp : Option W

pub record Implementation : Type 0 where
  pub name : Text
  pub version : Text
  pub language : Text

pub record ManifestResponse (Num : Type 0) : Type 0 where
  pub ojs_version : Text
  pub conformance_level : Value Num
  pub protocols : Value Num
  pub backend : Value Num
  pub schema_validation : Value Num
  pub implementation : Option Implementation
  pub extensions : Option (Value Num)
