-- ===== src/Dap/Emitter.antt =====
-- cmd/exec-history-dap/main.go: the one-way stream of events.
use ojs_conformance.Common.{
  ℕ, Text, text, pos, Bool, true, false, List, [], ◌∷◌, ◌++◌, none, some, decimal,
}
use ojs_conformance.Json.{Value}
use ojs_conformance.JsonPath.{to_values}
use ojs_conformance.Dap.{
  Trace, Content, event, Session, new_session, send, thread_id_for, alloc_var, announce, object_of,
  span_as_map, span_stop_reason, thread_key, description,
}

module _ {Num : Type 0} where
  -- An event with a body.
  abbrev pub event_with : Text → List (Text × Value Num) → Content Num
  event_with name kvs = event name (some (Value.object (object_of kvs)))

  abbrev pub summary_event : ℕ → ℕ → Content Num
  summary_event ingested dropped = event_with (text "output") (
      (text "category", Value.string (text "console"))
      ∷ (
        text "output",
        Value.string (
            text "exec-history-dap: replayed "
            ++ (decimal ingested
                ++ (text " span(s), dropped " ++ (decimal dropped ++ text " invalid line(s)\n")))),
      )
      ∷ [])

  -- emitter.terminate
  unfoldable pub emit_end : ℕ → ℕ → Session Num → Session Num
  unfolding send
  emit_end ingested dropped s =
      send (event_with (text "terminated") []) (send (summary_event ingested dropped) s)

module _ {Num Event : Type 0} (T : Trace Num Event) where
  abbrev pub process_event : Content Num
  process_event = event_with (text "process") (
      (text "name", Value.string (text "ojs-exec-history"))
      ∷ (text "isLocalProcess", Value.bool true)
      ∷ (text "startMethod", Value.string (text "launch"))
      ∷ (text "systemProcessId", Value.int T.pid)
      ∷ [])

  -- emitter.initialize
  unfoldable pub emit_start : Session Num → Session Num
  unfolding send
  emit_start s = send process_event (send (event (text "initialized") none) s)

  abbrev pub stopped_body : Event → ℕ → ℕ → List (Text × Value Num)
  stopped_body ev tid scope_ref =
      (text "reason", Value.string (span_stop_reason (T.outcome ev)))
      ∷ (text "description", Value.string (description T ev))
      ∷ (text "threadId", Value.int (pos tid))
      ∷ (text "preserveFocusHint", Value.bool false)
      ∷ (text "allThreadsStopped", Value.bool false)
      ∷ (text "hitBreakpointIds", Value.array (to_values []))
      ∷ (
        text "_ojs",
        Value.object (
            object_of (
              (text "span_id", Value.string (T.span_id ev))
              ∷ (text "parent_span_id", Value.string (T.parent_span_id ev))
              ∷ (text "envelope_id", Value.string (T.envelope_id ev))
              ∷ (text "variables_ref", Value.int (pos scope_ref))
              ∷ (text "sdk", Value.string (T.sdk ev))
              ∷ (text "lang", Value.string (T.lang ev))
              ∷ [])),
      )
      ∷ []

  abbrev pub output_event : Event → Content Num
  output_event ev = event_with (text "output") (
      (text "category", Value.string (text "stdout"))
      ∷ (text "output", Value.string (T.console_line ev))
      ∷ [])

  abbrev pub continued_event : ℕ → Content Num
  continued_event tid =
      event_with (text "continued") (
        (text "threadId", Value.int (pos tid))
        ∷ (text "allThreadsContinued", Value.bool false)
        ∷ [])

  -- emitter.onSpan
  unfoldable pub on_span : Bool → Event → Session Num → Session Num
  unfolding send thread_id_for alloc_var announce span_as_map span_stop_reason
  on_span by_sdk ev s =
      let t = thread_id_for (thread_key T by_sdk ev) s in
      let tid = t.1.0 in
      let printed = send (output_event ev) (announce (t.1) (t.0)) in
      let scope = alloc_var (span_as_map T ev) printed in
      let on_stop = event_with (text "stopped") (stopped_body ev tid (scope.1)) in
      send (continued_event tid) (send on_stop (scope.0))

  -- lib.Replay calls emitter.onSpan for one event after another.
  unfoldable pub emit_spans : Bool → List Event → Session Num → Session Num
  unfolding on_span
  emit_spans by_sdk [] s = s
  emit_spans by_sdk (ev ∷ evs) s = emit_spans by_sdk evs (on_span by_sdk ev s)

  -- emitCmd behind its flags, with the events of the trace and the two counts of lib.Replay.
  unfoldable pub emit : Bool → List Event → ℕ → ℕ → Session Num
  unfolding emit_start emit_spans emit_end
  emit by_sdk evs ingested dropped =
      emit_end ingested dropped (emit_spans by_sdk evs (emit_start new_session))
