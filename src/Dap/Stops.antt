-- ===== src/Dap/Stops.antt =====
-- The stops in the stream that cmd/exec-history-dap/main.go emits.
use ojs_conformance.Common.{
  ℕ, Text, text, Bool, true, false, List, [], ◌∷◌, ◌++◌, some, ◌≡◌, ◌∙◌, ap, sym, refl, str_eq, map,
  append_assoc, append-nil, if◌then◌else◌,
}
use ojs_conformance.Json.{Value, get_entry}
use ojs_conformance.Dap.{
  Trace, Content, event, Message, Session, new_session, send, thread_id_for, alloc_var, announce,
  span_as_map, thread_key, description,
}
use ojs_conformance.Dap.Sessions.{
  IsSession, new_session-IsSession, send-IsSession, announce-IsSession, thread_id_for-IsSession,
  alloc_var-IsSession,
}
use ojs_conformance.Dap.Logs.{gather, gather-send, gather-silent, gather-thread_id_for}
use ojs_conformance.Dap.Emitter.{
  event_with, summary_event, output_event, continued_event, stopped_body, emit_start, on_span,
  emit_spans, emit_end, emit,
}

module _ {Num : Type 0} where
  -- The description of a stopped event.
  abbrev pub stop_of : Content Num → List Text
  stop_of (event name (some (Value.object es))) =
      if str_eq name (text "stopped")
      then elim (get_entry (text "description") es) [ some (Value.string s) ↦ s ∷ [] | _ ↦ [] ]
      else []
  stop_of _ = []

  abbrev pub stops : List (Message Num) → List Text
  stops = gather stop_of

  stops-announce : (t : ℕ × Bool) (s : Session Num) → stops (announce t s).sent ≡ stops s.sent
  unfolding announce str_eq
  stops-announce (tid, false) s = refl
  stops-announce (tid, true) s = gather-send stop_of _ s ∙ append-nil (stops s.sent)

module _ {Num Event : Type 0} (T : Trace Num Event) where
  stops-on_span :
      (by_sdk : Bool) (ev : Event) (s : Session Num)
      → stops (on_span T by_sdk ev s).sent ≡ stops s.sent ++ description T ev ∷ []
  unfolding on_span str_eq alloc_var
  stops-on_span by_sdk ev s =
      let t = thread_id_for (thread_key T by_sdk ev) s in
      let announced = announce (t.1) (t.0) in
      let scope = alloc_var (span_as_map T ev) (send (output_event T ev) announced) in
      let on_stop = event_with (text "stopped") (stopped_body T ev (t.1.0) (scope.1)) in
      let before : stops (scope.0).sent ≡ stops s.sent =
        gather-silent stop_of (output_event T ev) announced refl
        ∙ (stops-announce (t.1) (t.0) ∙ gather-thread_id_for stop_of (thread_key T by_sdk ev) s) in
      gather-silent stop_of (continued_event T (t.1.0)) (send on_stop (scope.0)) refl
      ∙ (gather-send stop_of on_stop (scope.0) ∙ ap (λ xs. xs ++ description T ev ∷ []) before)

  stops-emit_spans :
      (by_sdk : Bool) (evs : List Event) (s : Session Num)
      → stops (emit_spans T by_sdk evs s).sent ≡ stops s.sent ++ map (description T) evs
  unfolding emit_spans
  stops-emit_spans by_sdk [] s = sym (append-nil (stops s.sent))
  stops-emit_spans by_sdk (ev ∷ evs) s =
      stops-emit_spans by_sdk evs (on_span T by_sdk ev s)
      ∙ (ap (λ xs. xs ++ map (description T) evs) (stops-on_span by_sdk ev s)
          ∙ append_assoc (stops s.sent) (description T ev ∷ []) (map (description T) evs))

  on_span-IsSession :
      (by_sdk : Bool) (ev : Event) (s : Session Num)
      → IsSession s
      → IsSession (on_span T by_sdk ev s)
  unfolding on_span
  on_span-IsSession by_sdk ev s h =
      let t = thread_id_for (thread_key T by_sdk ev) s in
      send-IsSession _ _ (
        send-IsSession _ _ (
          alloc_var-IsSession _ _ (
            send-IsSession _ _ (
              announce-IsSession (t.1) (t.0)
                (thread_id_for-IsSession (thread_key T by_sdk ev) s h)))))

  emit_spans-IsSession :
      (by_sdk : Bool) (evs : List Event) (s : Session Num)
      → IsSession s
      → IsSession (emit_spans T by_sdk evs s)
  unfolding emit_spans
  emit_spans-IsSession by_sdk [] s h = h
  emit_spans-IsSession by_sdk (ev ∷ evs) s h =
      emit_spans-IsSession by_sdk evs (on_span T by_sdk ev s) (on_span-IsSession by_sdk ev s h)

  -- The emitted stream stops once on every span, in the order of the trace, and its messages are
  -- numbered 1, 2, 3 and so on, with distinct thread ids.
  pub emit-stops :
      (by_sdk : Bool) (evs : List Event) (ingested dropped : ℕ)
      → let s = emit T by_sdk evs ingested dropped in
        (stops s.sent ≡ map (description T) evs) × IsSession s
  unfolding emit emit_start emit_end str_eq
  emit-stops by_sdk evs ingested dropped =
      let started = emit_start T new_session in
      let all = emit_spans T by_sdk evs started in
      let summed = send (summary_event ingested dropped) all in
      (
        gather-silent stop_of (event_with (text "terminated") []) summed refl
            ∙ (gather-silent stop_of (summary_event ingested dropped) all refl
                ∙ stops-emit_spans by_sdk evs started),
        send-IsSession _ _ (
            send-IsSession _ _ (
              emit_spans-IsSession by_sdk evs started
                (send-IsSession _ _ (send-IsSession _ _ new_session-IsSession)))),
      )
