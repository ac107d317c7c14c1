-- ===== src/Client/Bodies.antt =====
-- What the methods of OJSClient (runner/grpc/client.go) read from the body and the path of a step. A
-- body that is no JSON object is a map without entries.
use ojs_conformance.Common.{Text, text, ℤ, pos, List, [], ◌∷◌, Option, none, some, ◌>>=◌}
use ojs_conformance.Json.{Runtime, Value, Values, Entries}
use ojs_conformance.Client.{
  Protobuf, text_field, number_field, list_field, map_field, texts_in, values_in, seconds,
  extract_id_from_path, trim_suffix,
}
use ojs_conformance.Client.Messages.{
  EnqueueRequest, EnqueueBatchRequest, FetchRequest, AckRequest, JobError, NackRequest,
  HeartbeatRequest, ListDeadLetterRequest, RegisterCronRequest, StepRequest, CreateWorkflowRequest,
}
use ojs_conformance.Client.Options.{build_enqueue_options, duration_field}

-- A field that keeps its zero value where the body does not set it.
abbrev pub text_or_empty : Option Text → Text
text_or_empty none = []
text_or_empty (some s) = s

abbrev pub or_zero : Option ℤ → ℤ
or_zero none = pos 0
or_zero (some z) = z

-- The later of two assignments.
abbrev pub or_else {ℓ} : {A : Type ℓ} → Option A → Option A → Option A
or_else none earlier = earlier
or_else (some a) earlier = some a

-- The job ids and names in the paths.
abbrev pub job_id : Text → Text
job_id path = extract_id_from_path path (text "/ojs/v1/jobs/")

abbrev pub queue_name : Text → Text → Text
queue_name path action = trim_suffix (extract_id_from_path path (text "/ojs/v1/queues/")) action

abbrev pub dead_letter_id : Text → Text
dead_letter_id path = extract_id_from_path path (text "/ojs/v1/dead-letter/")

abbrev pub workflow_id : Text → Text
workflow_id path = extract_id_from_path path (text "/ojs/v1/workflows/")

module _ {Num : Type 0} where
  abbrev pub string_of : Text → Entries Num → Text
  string_of k body = text_or_empty (text_field k body)

  abbrev pub read_texts : Text → Entries Num → List Text
  read_texts k body = elim (list_field k body) [ none ↦ [] | some vs ↦ texts_in vs ]

  abbrev pub read_error : Entries Num → JobError
  read_error es = record {
    message = string_of (text "message") es;
    code = text_or_empty (or_else (text_field (text "code") es) (text_field (text "type") es));
    attempt = pos 0;
  }

module _ {Num W : Type 0} (R : Runtime Num) (P : Protobuf Num W) where
  abbrev pub int32_field : Text → Entries Num → Option ℤ
  int32_field k body = number_field k body >>= λ x. some (P.int32_of x)

  -- The arguments of a job.
  unfoldable pub read_args : Entries Num → List W
  unfolding values_in
  read_args body = elim (list_field (text "args") body) [ none ↦ [] | some vs ↦ values_in P vs ]

  -- The request of enqueue, and an entry of that of enqueueBatch.
  unfoldable pub read_job : Entries Num → EnqueueRequest Num W
  unfolding read_args build_enqueue_options
  read_job body = record {
    type = string_of (text "type") body;
    args = read_args body;
    options = build_enqueue_options R P body;
  }

  unfoldable pub read_jobs : Values Num → List (EnqueueRequest Num W)
  unfolding read_job
  read_jobs Values.nil = []
  read_jobs (Values.cons (Value.object jm) vs) = read_job jm ∷ read_jobs vs
  read_jobs (Values.cons _ vs) = read_jobs vs

  unfoldable pub read_step : Entries Num → StepRequest Num W
  unfolding read_args texts_in build_enqueue_options
  read_step sm = record {
    id = string_of (text "id") sm;
    type = string_of (text "type") sm;
    depends_on = read_texts (text "depends_on") sm;
    args = read_args sm;
    options = build_enqueue_options R P sm;
  }

  unfoldable pub read_steps : Values Num → List (StepRequest Num W)
  unfolding read_step
  read_steps Values.nil = []
  read_steps (Values.cons (Value.object sm) vs) = read_step sm ∷ read_steps vs
  read_steps (Values.cons _ vs) = read_steps vs

  -- The request of enqueueBatch.
  abbrev pub read_batch : Entries Num → EnqueueBatchRequest Num W
  read_batch body = record {
    jobs = elim (list_field (text "jobs") body) [ none ↦ [] | some vs ↦ read_jobs vs ];
    default_options = build_enqueue_options R P body;
  }

  -- The request of fetch: `count` is looked at behind `max_jobs`.
  abbrev pub read_fetch : Entries Num → FetchRequest
  read_fetch body = record {
    queues = read_texts (text "queues") body;
    worker_id = string_of (text "worker_id") body;
    count =
        or_zero (or_else (int32_field (text "count") body) (int32_field (text "max_jobs") body));
  }

  -- The request of ack.
  abbrev pub read_ack : Entries Num → AckRequest W
  read_ack body = record {
    job_id = string_of (text "job_id") body;
    result = map_field (text "result") body >>= P.new_struct;
  }

  -- The request of nack.
  abbrev pub read_nack : Entries Num → NackRequest
  read_nack body = record {
    job_id = string_of (text "job_id") body;
    error = map_field (text "error") body >>= λ es. some (read_error es);
  }

  -- The request of heartbeat: `id` is looked at behind `job_id`.
  abbrev pub read_heartbeat : Entries Num → HeartbeatRequest
  read_heartbeat body = record {
    id = text_or_empty (or_else (text_field (text "id") body) (text_field (text "job_id") body));
    worker_id = string_of (text "worker_id") body;
    extend_by =
        or_else (number_field (text "extend_by") body >>= λ x. some (seconds R x))
          (duration_field R P (text "extend_by") body);
  }

  -- The request of listDeadLetter.
  abbrev pub read_dead_letters : Entries Num → ListDeadLetterRequest
  read_dead_letters body = record {
    queue = string_of (text "queue") body;
    limit = or_zero (int32_field (text "limit") body);
  }

  -- The request of registerCron.
  abbrev pub read_cron : Entries Num → RegisterCronRequest Num W
  read_cron body = record {
    name = string_of (text "name") body;
    cron = string_of (text "cron") body;
    timezone = string_of (text "timezone") body;
    type = string_of (text "type") body;
    args = read_args body;
    options = build_enqueue_options R P body;
  }

  -- The request of createWorkflow.
  abbrev pub read_workflow : Entries Num → CreateWorkflowRequest Num W
  read_workflow body = record {
    name = string_of (text "name") body;
    steps = elim (list_field (text "steps") body) [ none ↦ [] | some vs ↦ read_steps vs ];
  }
