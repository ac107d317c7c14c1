-- ===== src/Dap.antt =====
-- cmd/exec-history-dap: the debug adapter that steps through the trace of a job. The events of a trace
-- (lib.ExecHistoryEvent) and lib.Replay are not in the repository: the first are a type `Event` with
-- the fields that the adapter reads, the second is a function. Writing to stdout is taken to succeed;
-- what was written is the log `sent`. Maps have no key twice.
pub mod Server
pub mod Handlers
pub mod Emitter
pub mod Sessions
pub mod Closed
pub mod Requests
pub mod References
pub mod Stepping
pub mod Stops
pub mod Logs
pub mod Framing
pub mod Streams
pub mod Readers
pub mod Commands
pub mod Responses
use ojs_conformance.Common.{
  ℕ, suc, Text, text, ℤ, pos, Bool, true, false, List, [], ◌∷◌, ◌++◌, Option, none, some, str_eq,
  ◌==◌, ◌+◌, ◌||◌, if◌then◌else◌,
}
use ojs_conformance.Json.{Value, Values, Entries, entry, end, nil, cons, pairs}
use ojs_conformance.Assertions.Format.{text_lt}

-- What the adapter reads of an event, and the parts of Go and of the system that it calls.
pub record Trace (Num Event : Type 0) : Type 0 where
  pub schema_version : Event → Text
  pub envelope_id : Event → Text
  pub sdk : Event → Text
  pub lang : Event → Text
  pub span_kind : Event → Text
  pub started_at : Event → Text
  pub duration_ms : Event → Num
  pub outcome : Event → Text
  pub attempt : Event → ℤ
  pub span_id : Event → Text
  pub worker_id : Event → Text
  pub parent_span_id : Event → Text
  pub attrs : Event → Entries Num
  -- the line that the emitter prints of an event
  pub console_line : Event → Text
  -- json.Marshal
  pub marshal : Value Num → Text
  -- os.Getpid
  pub pid : ℤ
  -- lib.Replay of the file at a path: the events given to the callback, and the error if there is one
  pub replay : Text → List Event × Option Text

-- The map of a message.
pub data Content (Num : Type 0) : Type 0 where
  event : Text → Option (Value Num) → Content Num
  -- the number of the request, its command, success, the message and the body
  response : ℤ → Text → Bool → Text → Option (Value Num) → Content Num

pub record Message (Num : Type 0) : Type 0 where
  pub seq : ℕ
  pub content : Content Num

-- What the server and the emitter have in common.
pub record Session (Num : Type 0) : Type 0 where
  pub seq : ℕ
  pub thread_ids : List (Text × ℕ)
  pub next_tid : ℕ
  -- the newest entry first
  pub var_refs : List (ℕ × Entries Num)
  pub next_var : ℕ
  pub sent : List (Message Num)

-- A text in the list of keys.
abbrev pub get_id : Text → List (Text × ℕ) → Option ℕ
get_id k [] = none
get_id k ((j, id) ∷ ids) = if str_eq j k then some id else get_id k ids

-- spanStopReason
unfoldable pub span_stop_reason : Text → Text
unfolding str_eq
span_stop_reason outcome =
    if str_eq outcome (text "retryable")
      || (str_eq outcome (text "discarded") || str_eq outcome (text "cancelled"))
    then text "exception"
    else text "step"

module _ {Num : Type 0} where
  abbrev pub new_session : Session Num
  new_session = record {
    seq = 0;
    thread_ids = [];
    next_tid = 1;
    var_refs = [];
    next_var = 1000;
    sent = [];
  }

  -- The next message: event, respond and writeEvent.
  unfoldable pub send : Content Num → Session Num → Session Num
  send c s = record s {
    seq = suc s.seq;
    sent = s.sent ++ record { seq = suc s.seq; content = c } ∷ [];
  }

  -- threadIDFor: the id, and whether it is new
  unfoldable pub thread_id_for : Text → Session Num → Session Num × (ℕ × Bool)
  unfolding str_eq
  thread_id_for key s = elim (get_id key s.thread_ids) [
    | some id ↦ (s, (id, false))
    | none ↦ (
      record s { thread_ids = (key, s.next_tid) ∷ s.thread_ids; next_tid = suc s.next_tid },
      (s.next_tid, true),
    )
  ]

  -- allocVar
  unfoldable pub alloc_var : Entries Num → Session Num → Session Num × ℕ
  alloc_var v s =
      (record s { var_refs = (s.next_var, v) ∷ s.var_refs; next_var = suc s.next_var }, s.next_var)

  abbrev pub object_of : List (Text × Value Num) → Entries Num
  object_of [] = end
  object_of ((k, v) ∷ kvs) = entry k v (object_of kvs)

  -- The event that a thread has started, if it has.
  unfoldable pub announce : ℕ × Bool → Session Num → Session Num
  unfolding send
  announce (tid, false) s = s
  announce (tid, true) s =
      send
        (event (text "thread") (
          some (
            Value.object (
              object_of (
                (text "reason", Value.string (text "started"))
                ∷ (text "threadId", Value.int (pos tid))
                ∷ [])))))
        s

  -- The map without the entry, if the text is empty.
  optional : Text → Text → List (Text × Value Num)
  optional k [] = []
  optional k (c ∷ cs) = (k, Value.string (c ∷ cs)) ∷ []

  optional_map : Text → Entries Num → List (Text × Value Num)
  optional_map k end = []
  optional_map k (entry j v es) = (k, Value.object (entry j v es)) ∷ []

  module _ {Event : Type 0} (T : Trace Num Event) where
    -- spanAsMap
    unfoldable pub span_as_map : Event → Entries Num
    unfolding optional optional_map
    span_as_map ev = object_of (
        (text "schema_version", Value.string (T.schema_version ev))
        ∷ (text "envelope_id", Value.string (T.envelope_id ev))
        ∷ (text "sdk", Value.string (T.sdk ev))
        ∷ (text "lang", Value.string (T.lang ev))
        ∷ (text "span_kind", Value.string (T.span_kind ev))
        ∷ (text "started_at", Value.string (T.started_at ev))
        ∷ (text "duration_ms", Value.float64 (T.duration_ms ev))
        ∷ (text "outcome", Value.string (T.outcome ev))
        ∷ (text "attempt", Value.int (T.attempt ev))
        ∷ (text "span_id", Value.string (T.span_id ev))
        ∷ (optional (text "worker_id") (T.worker_id ev)
            ++ (optional (text "parent_span_id") (T.parent_span_id ev)
                ++ optional_map (text "attrs") (T.attrs ev))))

    -- The key of a span's thread; `by_sdk` is `threadBy == "sdk"`.
    abbrev pub thread_key : Bool → Event → Text
    thread_key by_sdk ev = if by_sdk then T.sdk ev else T.envelope_id ev

    abbrev pub description : Event → Text
    description ev = T.span_kind ev ++ (text " (" ++ (T.outcome ev ++ text ")"))
