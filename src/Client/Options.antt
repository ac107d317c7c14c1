-- ===== src/Client/Options.antt =====
-- buildEnqueueOptions of runner/grpc/client.go. What is built goes with its flag, as in Settings.
pub mod Found
pub mod Fields
use ojs_conformance.Common.{
  Text, text, ℤ, pos, eq_ℤ, Bool, true, false, ◌&&◌, [], ◌∷◌, ◌++◌, List, Option, none, some,
  str_eq, if◌then◌else◌, ◌>>=◌,
}
use ojs_conformance.Json.{Runtime, Value, Values, Entries}
use ojs_conformance.Client.{
  Protobuf, text_field, number_field, list_field, map_field, texts_in, seconds,
}
use ojs_conformance.Client.Settings.{read, fall_back, built}
use ojs_conformance.Client.Messages.{
  Conflict, unspecified, reject, replace, ignore, replace_except_schedule, RetryPolicy,
  UniquePolicy, EnqueueOptions,
}

abbrev pub blank_unique : UniquePolicy
blank_unique = record { key = []; period = none; on_conflict = unspecified; states = [] }

-- The switch on the lower case of `on_conflict`.
unfoldable pub set_conflict : UniquePolicy → Text → UniquePolicy
unfolding str_eq
set_conflict u v =
    if str_eq v (text "reject")
    then record u { on_conflict = reject }
    else if str_eq v (text "replace")
    then record u { on_conflict = replace }
    else if str_eq v (text "ignore")
    then record u { on_conflict = ignore }
    else if str_eq v (text "replace_except_schedule")
    then record u { on_conflict = replace_except_schedule }
    else u

module _ {Num W : Type 0} (R : Runtime Num) (P : Protobuf Num W) where
  abbrev pub blank_retry : RetryPolicy Num
  blank_retry = record {
    max_attempts = pos 0;
    initial_interval = none;
    max_interval = none;
    backoff_coefficient = R.of_int (pos 0);
  }

  abbrev pub duration_field : Text → Entries Num → Option ℤ
  duration_field k es = text_field k es >>= P.parse_duration

  abbrev pub seconds_field : Text → Entries Num → Option ℤ
  unfolding seconds
  seconds_field k es = number_field k es >>= λ v. some (seconds R v)

  -- The part on the retry policy.
  unfoldable pub read_retry : Entries Num → RetryPolicy Num × Bool
  unfolding seconds
  read_retry es =
      let set_initial : RetryPolicy Num → ℤ → RetryPolicy Num =
        λ r d. record r { initial_interval = some d } in
      let set_max : RetryPolicy Num → ℤ → RetryPolicy Num =
        λ r d. record r { max_interval = some d } in
      let set_coefficient : RetryPolicy Num → Num → RetryPolicy Num =
        λ r v. record r { backoff_coefficient = v } in
      let r0 : RetryPolicy Num × Bool = (blank_retry, false) in
      let r1 =
        read r0 (number_field (text "max_attempts") es)
          (λ r v. record r { max_attempts = P.int32_of v }) in
      let r2 = read r1 (seconds_field (text "initial_interval") es) set_initial in
      let r3 = read r2 (seconds_field (text "initial_delay") es) set_initial in
      let r4 = read r3 (duration_field (text "initial_interval") es) set_initial in
      let r5 = read r4 (seconds_field (text "max_interval") es) set_max in
      let r6 = read r5 (seconds_field (text "max_delay") es) set_max in
      let r7 = read r6 (number_field (text "multiplier") es) set_coefficient in
      read r7 (number_field (text "backoff_coefficient") es) set_coefficient

  -- The states that the generated code knows.
  unfoldable pub known_states : List Text → List ℤ
  known_states [] = []
  known_states (s ∷ ss) =
      let rest = known_states ss in
      elim (P.job_state_value (text "JOB_STATE_" ++ P.to_upper s)) [
        | none ↦ rest
        | some n ↦ n ∷ rest
      ]

  -- The part on the unique policy.
  unfoldable pub read_unique : Entries Num → UniquePolicy × Bool
  unfolding seconds texts_in known_states set_conflict
  read_unique es =
      let u0 : UniquePolicy × Bool = (blank_unique, false) in
      let u1 = read u0 (text_field (text "key") es) (λ u v. record u { key = v ∷ [] }) in
      let u2 =
        read u1 (list_field (text "key") es) (λ u vs. record u { key = u.key ++ texts_in vs }) in
      let u3 = read u2 (seconds_field (text "period") es) (λ u d. record u { period = some d }) in
      let u4 = read u3 (duration_field (text "period") es) (λ u d. record u { period = some d }) in
      let u5 =
        read u4 (text_field (text "on_conflict") es) (λ u v. set_conflict u (P.to_lower v)) in
      read u5 (list_field (text "states") es)
        (λ u vs. record u { states = u.states ++ known_states (texts_in vs) })

  abbrev pub Reading : Type 0
  Reading = EnqueueOptions Num W × Bool

  abbrev pub nothing_read : Reading
  nothing_read = (
    record {
      queue = [];
      priority = pos 0;
      max_attempts = pos 0;
      tags = [];
      trace_id = [];
      delay_until = none;
      timeout = none;
      ttl = none;
      retry = none;
      unique = none;
      meta = none;
    },
    false,
  )

  abbrev pub set_queue : EnqueueOptions Num W → Text → EnqueueOptions Num W
  set_queue o v = record o { queue = v }

  abbrev pub set_priority : EnqueueOptions Num W → Num → EnqueueOptions Num W
  set_priority o v = record o { priority = P.int32_of v }

  abbrev pub set_attempts : EnqueueOptions Num W → Num → EnqueueOptions Num W
  set_attempts o v = record o { max_attempts = P.int32_of v }

  abbrev pub no_queue : EnqueueOptions Num W → Bool
  no_queue o = str_eq o.queue []

  abbrev pub no_priority : EnqueueOptions Num W → Bool
  no_priority o = eq_ℤ o.priority (pos 0)

  abbrev pub no_attempts : EnqueueOptions Num W → Bool
  no_attempts o = eq_ℤ o.max_attempts (pos 0)

  -- The queue, the priority and the attempts.
  unfoldable pub read_plain : Entries Num → Reading → Reading
  read_plain src s0 =
      let s1 = read s0 (text_field (text "queue") src) set_queue in
      let s2 = read s1 (number_field (text "priority") src) set_priority in
      read s2 (number_field (text "max_attempts") src) set_attempts

  abbrev pub add_tags : EnqueueOptions Num W → Values Num → EnqueueOptions Num W
  unfolding texts_in
  add_tags o vs = record o { tags = o.tags ++ texts_in vs }

  abbrev pub set_trace : EnqueueOptions Num W → Text → EnqueueOptions Num W
  set_trace o v = record o { trace_id = v }

  -- The tags and the id of the trace.
  unfoldable pub read_labels : Entries Num → Reading → Reading
  unfolding texts_in
  read_labels src s0 =
      let s1 = read s0 (list_field (text "tags") src) add_tags in
      read s1 (text_field (text "trace_id") src) set_trace

  abbrev pub set_start : EnqueueOptions Num W → W → EnqueueOptions Num W
  set_start o t = record o { delay_until = some t }

  abbrev pub set_timeout : EnqueueOptions Num W → ℤ → EnqueueOptions Num W
  set_timeout o d = record o { timeout = some d }

  abbrev pub set_ttl : EnqueueOptions Num W → ℤ → EnqueueOptions Num W
  set_ttl o d = record o { ttl = some d }

  -- The keys whose values are times: the start, the timeout and the time to live.
  unfoldable pub read_times : Entries Num → Reading → Reading
  unfolding seconds
  read_times src s0 =
      let start = text_field (text "scheduled_at") src >>= P.parse_time in
      let s1 = read s0 start set_start in
      let s2 = read s1 (seconds_field (text "timeout") src) set_timeout in
      let s3 = read s2 (duration_field (text "timeout") src) set_timeout in
      let s4 = read s3 (seconds_field (text "ttl") src) set_ttl in
      read s4 (duration_field (text "ttl") src) set_ttl

  abbrev pub set_retry : EnqueueOptions Num W → RetryPolicy Num → EnqueueOptions Num W
  set_retry o r = record o { retry = some r }

  abbrev pub set_unique : EnqueueOptions Num W → UniquePolicy → EnqueueOptions Num W
  set_unique o u = record o { unique = some u }

  abbrev pub set_meta : EnqueueOptions Num W → W → EnqueueOptions Num W
  set_meta o m = record o { meta = some m }

  abbrev pub retry_in : Entries Num → Option (RetryPolicy Num)
  unfolding read_retry
  retry_in src = map_field (text "retry") src >>= λ es. built (read_retry es)

  abbrev pub unique_in : Entries Num → Option UniquePolicy
  unfolding read_unique
  unique_in src = map_field (text "unique") src >>= λ es. built (read_unique es)

  -- The keys whose values are objects: the policies and the metadata.
  unfoldable pub read_objects : Entries Num → Reading → Reading
  unfolding read_retry read_unique
  read_objects src s0 =
      let s1 = read s0 (retry_in src) set_retry in
      let s2 = read s1 (unique_in src) set_unique in
      read s2 (map_field (text "meta") src >>= P.new_struct) set_meta

  -- The keys of the body that serve where the nested options do not set them.
  unfoldable pub read_fallbacks : Entries Num → Reading → Reading
  unfolding str_eq
  read_fallbacks body s0 =
      let s1 = fall_back s0 no_queue (text_field (text "queue") body) set_queue in
      let s2 = fall_back s1 no_priority (number_field (text "priority") body) set_priority in
      fall_back s2 no_attempts (number_field (text "max_attempts") body) set_attempts

  abbrev pub read_options : Entries Num → Reading → Reading
  read_options src s = read_objects src (read_times src (read_labels src (read_plain src s)))

  -- buildEnqueueOptions
  unfoldable pub build_enqueue_options : Entries Num → Option (EnqueueOptions Num W)
  unfolding read_plain read_labels read_times read_objects read_fallbacks
  build_enqueue_options body = built (elim (map_field (text "options") body) [
    | none ↦ read_options body nothing_read
    | some nested ↦ read_fallbacks body (read_options nested nothing_read)
  ])
