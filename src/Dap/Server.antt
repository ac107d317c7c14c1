-- ===== src/Dap/Server.antt =====
-- cmd/exec-history-dap/serve.go: the server.
use ojs_conformance.Common.{
  ℕ, Text, text, ℤ, pos, negsuc, inc, Bool, true, false, List, [], ◌∷◌, Option, none, some, str_eq,
  ◌==◌, ltb, get_elem?, if◌then◌else◌,
}
use ojs_conformance.Json.{Runtime, Value, Entries, end, pairs, get_entry}
use ojs_conformance.JsonPath.{to_values}
use ojs_conformance.Assertions.Format.{text_lt}
use ojs_conformance.Dap.{
  Trace, Content, event, Session, send, thread_id_for, alloc_var, object_of, announce,
  span_stop_reason, thread_key, description,
}

pub record Server (Num Event : Type 0) : Type 0 where
  pub session : Session Num
  pub trace_path : Text
  pub by_sdk : Bool
  pub spans : List Event
  -- the index of the current span
  pub cursor : ℤ
  pub stopped : Bool
  pub terminated : Bool

-- The commands that handle knows.
pub data Command : Type 0 where
  initialize launch configuration_done threads stack_trace scopes variables : Command
  continue next disconnect terminate : Command
  other : Command

abbrev commands : List (Text × Command)
commands =
    (text "initialize", initialize)
    ∷ (text "launch", launch)
    ∷ (text "configurationDone", configuration_done)
    ∷ (text "threads", threads)
    ∷ (text "stackTrace", stack_trace)
    ∷ (text "scopes", scopes)
    ∷ (text "variables", variables)
    ∷ (text "continue", continue)
    ∷ (text "next", next)
    ∷ (text "disconnect", disconnect)
    ∷ (text "terminate", terminate)
    ∷ []

find_command : Text → List (Text × Command) → Command
unfolding str_eq
find_command name [] = other
find_command name ((n, c) ∷ cs) = if str_eq n name then c else find_command name cs

-- The switch on the command.
unfoldable pub command_of : Text → Command
unfolding find_command
command_of name = find_command name commands

-- The thread ids with their names, sorted by id.
insert_thread : Text × ℕ → List (Text × ℕ) → List (Text × ℕ)
insert_thread t [] = t ∷ []
insert_thread t (u ∷ us) =
    let rest = insert_thread t us in if ltb (t.1) (u.1) then t ∷ u ∷ us else u ∷ rest

unfoldable pub sort_threads : List (Text × ℕ) → List (Text × ℕ)
unfolding insert_thread
sort_threads [] = []
sort_threads (t ∷ ts) = insert_thread t (sort_threads ts)

module _ {Num : Type 0} where
  -- sort.Strings on the keys of a map
  insert_entry : Text × Value Num → List (Text × Value Num) → List (Text × Value Num)
  unfolding text_lt
  insert_entry t [] = t ∷ []
  insert_entry t (u ∷ us) =
      let rest = insert_entry t us in if text_lt (t.0) (u.0) then t ∷ u ∷ us else u ∷ rest

  pub sort_entries : List (Text × Value Num) → List (Text × Value Num)
  unfolding insert_entry
  sort_entries [] = []
  sort_entries (t ∷ ts) = insert_entry t (sort_entries ts)

  abbrev pub objects : (Text × ℕ) → Value Num
  objects (name, id) =
      Value.object
        (object_of ((text "id", Value.int (pos id)) ∷ (text "name", Value.string name) ∷ []))

  -- `s.varRefs[ref]`
  abbrev pub get_ref : ℤ → List (ℕ × Entries Num) → Option (Entries Num)
  get_ref ref [] = none
  get_ref (negsuc n) (v ∷ vs) = none
  get_ref (pos n) ((r, m) ∷ vs) = if r == n then some m else get_ref (pos n) vs

  -- A string of a message, empty if there is none.
  abbrev pub string_at : Text → Entries Num → Text
  string_at k m = elim (get_entry k m) [ some (Value.string s) ↦ s | _ ↦ [] ]

  abbrev pub array_of : List (Value Num) → Value Num
  array_of vs = Value.array (to_values vs)

  variable : Text → Text → ℕ → Value Num
  variable name value ref = Value.object (
      object_of (
        (text "name", Value.string name)
        ∷ (text "value", Value.string value)
        ∷ (text "variablesReference", Value.int (pos ref))
        ∷ []))

module _ {Num Event : Type 0} (R : Runtime Num) (T : Trace Num Event) where
  -- A float64 of a message, as an integer, zero if there is none.
  abbrev pub int_at : Text → Entries Num → ℤ
  int_at k m = elim (get_entry k m) [ some (Value.float64 n) ↦ R.int64_of n | _ ↦ pos 0 ]

  abbrev pub object_at : Text → Entries Num → Entries Num
  object_at k m = elim (get_entry k m) [ some (Value.object es) ↦ es | _ ↦ end ]

  -- valueRepr
  unfoldable pub value_repr : Value Num → Text
  value_repr Value.null = text "null"
  value_repr (Value.string s) = s
  value_repr v = T.marshal v

  -- The loop of varsFromMap.
  unfoldable pub vars_from : List (Text × Value Num) → Session Num → Session Num × List (Value Num)
  unfolding alloc_var value_repr variable
  vars_from [] s = (s, [])
  vars_from ((k, Value.object sub) ∷ kvs) s =
      let a = alloc_var sub s in
      let rest = vars_from kvs (a.0) in (rest.0, variable k (text "{...}") (a.1) ∷ rest.1)
  vars_from ((k, v) ∷ kvs) s =
      let rest = vars_from kvs s in (rest.0, variable k (value_repr v) 0 ∷ rest.1)

  -- varsFromMap
  unfoldable pub vars_from_map : Entries Num → Session Num → Session Num × List (Value Num)
  unfolding vars_from sort_entries
  vars_from_map m s = vars_from (sort_entries (pairs m)) s

  abbrev pub span_at : ℤ → List Event → Option Event
  span_at (pos n) spans = get_elem? spans n
  span_at (negsuc n) spans = none

  -- currentSpan
  unfoldable pub current_span : Server Num Event → Option Event
  current_span s = if s.stopped then span_at s.cursor s.spans else none

  abbrev pub with_session : (Session Num → Session Num) → Server Num Event → Server Num Event
  with_session f s = record s { session = f s.session }

  unfoldable pub terminated_event : Content Num
  terminated_event = event (text "terminated") (some (Value.object end))

  unfoldable pub stopped_event : Event → ℕ → Content Num
  unfolding span_stop_reason
  stopped_event span tid = event (text "stopped") (
      some (
        Value.object (
          object_of (
            (text "reason", Value.string (span_stop_reason (T.outcome span)))
            ∷ (text "description", Value.string (description T span))
            ∷ (text "threadId", Value.int (pos tid))
            ∷ (text "allThreadsStopped", Value.bool false)
            ∷ []))))

  -- advanceAndStop, from the cursor moved on
  unfoldable pub stop_at : Option Event → Server Num Event → Server Num Event
  unfolding thread_id_for announce send stopped_event terminated_event
  stop_at none s = record s {
    session = send terminated_event s.session;
    stopped = false;
    terminated = true;
  }
  stop_at (some span) s =
      let t = thread_id_for (thread_key T s.by_sdk span) s.session in
      record s {
        session = send (stopped_event span (t.1.0)) (announce (t.1) (t.0));
        stopped = true;
      }

  -- advanceAndStop
  unfoldable pub advance_and_stop : Server Num Event → Server Num Event
  unfolding stop_at
  advance_and_stop s =
      let cursor' = inc s.cursor in
      stop_at (span_at cursor' s.spans) (record s { cursor = cursor' })
