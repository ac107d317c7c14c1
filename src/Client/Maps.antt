-- ===== src/Client/Maps.antt =====
-- protoJobToMap and protoWorkflowToMap of runner/grpc/client.go, and the maps that the other methods
-- make of a response. The keys that a map gets are distinct, so that it is the list of what it got,
-- the last first.
pub mod Jobs
use ojs_conformance.Common.{
  Text, text, ℤ, pos, eq_ℤ, Bool, not, ◌||◌, ◌&&◌, List, [], ◌∷◌, Option, none, some, str_eq,
  trim_prefix, if◌then◌else◌,
}
use ojs_conformance.Json.{Runtime, Value, Values, Entries, entry, end}
use ojs_conformance.Client.{Protobuf}
use ojs_conformance.Client.Messages.{
  unspecified, Conflict, RetryPolicy, UniquePolicy, JobError, Job, WorkflowStep, Workflow,
  QueueInfo, QueueStats, CronEntry, Implementation, ManifestResponse,
}

unfoldable pub is_unspecified : Conflict → Bool
is_unspecified unspecified = Bool.true
is_unspecified _ = Bool.false

module _ {Num : Type 0} where
  -- `if b { m[k] = v }`
  abbrev pub put_if : Bool → Text → Value Num → Entries Num → Entries Num
  put_if b k v m = if b then entry k v m else m

  -- A list of values of one kind.
  unfoldable pub values_of {ℓ} : {A : Type ℓ} → (A → Value Num) → List A → Values Num
  values_of f [] = Values.nil
  values_of f (a ∷ rest) = Values.cons (f a) (values_of f rest)

  abbrev pub list_of {ℓ} : {A : Type ℓ} → (A → Value Num) → List A → Value Num
  list_of f xs = Value.array (values_of f xs)

  abbrev pub put_text : Text → Text → Entries Num → Entries Num
  put_text k [] m = m
  put_text k (c ∷ cs) m = entry k (Value.string (c ∷ cs)) m

  abbrev pub put_int : Text → ℤ → Entries Num → Entries Num
  put_int k z m = put_if (not (eq_ℤ z (pos 0))) k (Value.int32 z) m

  abbrev pub put_list {ℓ} :
      {A : Type ℓ} → (A → Value Num) → Text → List A → Entries Num → Entries Num
  put_list f k [] m = m
  put_list f k (a ∷ rest) m = entry k (list_of f (a ∷ rest)) m

  abbrev pub put_some {ℓ} :
      {A : Type ℓ} → (A → Value Num) → Text → Option A → Entries Num → Entries Num
  put_some f k none m = m
  put_some f k (some a) m = entry k (f a) m

  -- A map that is set only if it has an entry.
  abbrev pub put_map : Text → Entries Num → Entries Num → Entries Num
  put_map k end m = m
  put_map k (entry j v es) m = entry k (Value.object (entry j v es)) m

  abbrev pub error_map : JobError → Value Num
  error_map e =
      let m0 = entry (text "message") (Value.string e.message) end in
      Value.object (put_int (text "attempt") e.attempt (put_text (text "type") e.code m0))

  abbrev pub queue_map : QueueInfo → Value Num
  queue_map q =
      Value.object (
        entry (text "name") (Value.string q.name) (entry (text "paused") (Value.bool q.paused) end))

  abbrev pub stats_map : QueueStats Num → Value Num
  stats_map s = Value.object (
      entry (text "available") s.available (
        entry (text "active") s.active (
          entry (text "scheduled") s.scheduled (
            entry (text "retryable") s.retryable
              (entry (text "dead") s.dead (entry (text "paused") s.paused end))))))

  abbrev pub implementation_map : Implementation → Value Num
  implementation_map i = Value.object (
      entry (text "name") (Value.string i.name) (
        entry (text "version") (Value.string i.version)
          (entry (text "language") (Value.string i.language) end)))

  -- The map of manifest.
  abbrev pub manifest_map : ManifestResponse Num → Entries Num
  manifest_map r =
      let m0 : Entries Num = entry (text "specversion") (Value.string r.ojs_version) (
        entry (text "ojs_version") (Value.string r.ojs_version) (
          entry (text "conformance_level") r.conformance_level (
            entry (text "protocols") r.protocols (
              entry (text "backend") r.backend
                (entry (text "schema_validation") r.schema_validation end))))) in
      let m1 = put_some implementation_map (text "implementation") r.implementation m0 in
      put_some (λ v. v) (text "extensions") r.extensions m1

module _ {Num W : Type 0} (P : Protobuf Num W) where
  abbrev pub time_value : W → Value Num
  time_value t = Value.string (P.format_time t)

  -- strings.ToLower(strings.TrimPrefix(name, prefix))
  unfoldable pub enum_value : Text → Text → Value Num
  unfolding trim_prefix
  enum_value name prefix = Value.string (P.to_lower (trim_prefix name prefix))

  abbrev pub step_map : WorkflowStep → Value Num
  unfolding enum_value
  step_map s =
      let m0 : Entries Num = entry (text "id") (Value.string s.id) (
        entry (text "type") (Value.string s.type) (
          entry (text "state") (enum_value (P.step_state s.state) (text "WORKFLOW_STEP_STATE_"))
            end)) in
      Value.object (
        put_list Value.string (text "depends_on") s.depends_on
          (put_text (text "job_id") s.job_id m0))

  unfoldable pub workflow_map : Workflow W → Entries Num
  unfolding enum_value values_of
  workflow_map w =
      let m0 : Entries Num = entry (text "id") (Value.string w.id) (
        entry (text "name") (Value.string w.name) (
          entry (text "state") (enum_value (P.workflow_state w.state) (text "WORKFLOW_STATE_"))
            end)) in
      let m1 = put_some time_value (text "created_at") w.created_at m0 in
      let m2 = put_some time_value (text "completed_at") w.completed_at m1 in
      put_list step_map (text "steps") w.steps m2

  -- protoWorkflowToMap
  abbrev pub proto_workflow_to_map : Option (Workflow W) → Value Num
  proto_workflow_to_map none = Value.null
  proto_workflow_to_map (some w) = Value.object (workflow_map w)

  -- An entry of the list of listCron.
  abbrev pub cron_map : CronEntry W → Value Num
  cron_map e =
      let m0 : Entries Num = entry (text "name") (Value.string e.name) (
        entry (text "cron") (Value.string e.cron) (
          entry (text "timezone") (Value.string e.timezone)
            (entry (text "type") (Value.string e.type) end))) in
      let m1 = put_some time_value (text "next_run_at") e.next_run_at m0 in
      Value.object (put_some time_value (text "last_run_at") e.last_run_at m1)

module _ {Num W : Type 0} (R : Runtime Num) (P : Protobuf Num W) where
  abbrev pub retry_map : RetryPolicy Num → Entries Num
  retry_map r =
      let interval : ℤ → Value Num = λ d. Value.float64 (P.to_seconds d) in
      let m1 = put_int (text "max_attempts") r.max_attempts end in
      let m2 = put_some interval (text "initial_interval") r.initial_interval m1 in
      let m3 = put_some interval (text "max_interval") r.max_interval m2 in
      put_if (not (R.eq r.backoff_coefficient (R.of_int (pos 0)))) (text "backoff_coefficient")
        (Value.float64 r.backoff_coefficient) m3

  abbrev pub unique_map : UniquePolicy → Entries Num
  unfolding enum_value is_unspecified
  unique_map u =
      let m1 = put_list Value.string (text "key") u.key end in
      let m2 = put_some (λ d. Value.float64 (P.to_seconds d)) (text "period") u.period m1 in
      put_if (not (is_unspecified u.on_conflict)) (text "on_conflict")
        (enum_value P (P.conflict u.on_conflict) (text "UNIQUE_CONFLICT_ACTION_")) m2

  -- An entry for each of the timestamps.
  abbrev pub put_times : Job Num W → Entries Num → Entries Num
  put_times j m0 =
      let m1 = put_some (time_value P) (text "created_at") j.created_at m0 in
      let m2 = put_some (time_value P) (text "enqueued_at") j.enqueued_at m1 in
      let m3 = put_some (time_value P) (text "scheduled_at") j.scheduled_at m2 in
      let m4 = put_some (time_value P) (text "started_at") j.started_at m3 in
      let m5 = put_some (time_value P) (text "completed_at") j.completed_at m4 in
      put_some (time_value P) (text "expires_at") j.expires_at m5

  -- What stands before the arguments.
  abbrev pub job_head : Job Num W → Entries Num
  unfolding enum_value
  job_head j =
      let m0 : Entries Num = entry (text "id") (Value.string j.id) (
        entry (text "type") (Value.string j.type) (
          entry (text "queue") (Value.string j.queue) (
            entry (text "state") (enum_value P (P.job_state j.state) (text "JOB_STATE_"))
              (entry (text "attempt") (Value.int32 j.attempt) end)))) in
      let m1 = put_int (text "priority") j.priority m0 in
      let m2 = put_int (text "max_attempts") j.max_attempts m1 in
      put_times j (put_text (text "specversion") j.specversion m2)

  -- What stands behind them.
  abbrev pub put_job_rest : Job Num W → Entries Num → Entries Num
  put_job_rest j m4 =
      let m5 = put_list error_map (text "errors") j.errors m4 in
      let m6 = put_list Value.string (text "tags") j.tags m5 in
      let m7 = put_text (text "trace_id") j.trace_id m6 in
      let m8 = put_text (text "workflow_id") j.workflow_id m7 in
      let m9 = put_some (λ s. Value.object (P.as_map s)) (text "result") j.result m8 in
      let m10 = put_some (λ s. Value.object (P.as_map s)) (text "meta") j.meta m9 in
      let m11 : Entries Num = elim j.retry_policy [
        | none ↦ m10
        | some r ↦ put_map (text "retry_policy") (retry_map r) m10
      ] in
      elim j.unique_policy [
        | none ↦ m11
        | some u ↦ put_map (text "unique_policy") (unique_map u) m11
      ]

  -- protoJobToMap of a job that is not nil
  unfoldable pub job_map : Job Num W → Entries Num
  unfolding enum_value is_unspecified values_of
  job_map j = put_job_rest j (put_list P.as_interface (text "args") j.args (job_head j))

  -- protoJobToMap: a nil map is marshalled as null.
  abbrev pub proto_job_to_map : Option (Job Num W) → Value Num
  proto_job_to_map none = Value.null
  proto_job_to_map (some j) = Value.object (job_map j)

  abbrev pub jobs_value : List (Job Num W) → Value Num
  jobs_value jobs = list_of (λ j. Value.object (job_map j)) jobs
