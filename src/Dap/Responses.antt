-- ===== src/Dap/Responses.antt =====
-- The answers of cmd/exec-history-dap/serve.go to requests.
use ojs_conformance.Common.{
  ℕ, Text, text, ℤ, inc, Bool, true, false, List, [], ◌∷◌, ◌++◌, Option, none, some, ◌≡◌, ◌∙◌, ap,
  refl, str_eq, Option-cases, Bool-cases, inl, inr,
}
use ojs_conformance.Json.{Runtime, Value, Entries, pairs}
use ojs_conformance.Dap.{
  Trace, Content, event, response, Session, send, thread_id_for, alloc_var, announce, span_as_map,
  thread_key,
}
use ojs_conformance.Dap.Server.{
  Server, Command, initialize, launch, configuration_done, threads, stack_trace, scopes, variables,
  continue, next, disconnect, terminate, other, command_of, get_ref, string_at, int_at, object_at,
  sort_entries, vars_from, vars_from_map, current_span, span_at, terminated_event, stopped_event,
  stop_at, advance_and_stop,
}
use ojs_conformance.Dap.Handlers.{
  process_event, capabilities, one_thread, succeed, on_launch, on_scopes, on_variables,
  on_disconnect, handle_command, handle,
}
use ojs_conformance.Dap.Logs.{gather, gather-send, gather-silent, gather-thread_id_for}

module _ {Num : Type 0} where
  -- The number and the command of a response.
  abbrev pub response_of : Content Num → List (ℤ × Text)
  response_of (response req cmd success message body) = (req, cmd) ∷ []
  response_of (event name body) = []

  announce-responses :
      (t : ℕ × Bool) (s : Session Num)
      → gather response_of (announce t s).sent ≡ gather response_of s.sent
  unfolding announce
  announce-responses (tid, false) s = refl
  announce-responses (tid, true) s = gather-silent response_of _ s refl

module _ {Num Event : Type 0} (R : Runtime Num) (T : Trace Num Event) where
  -- The responses that the server has sent.
  abbrev pub responses : Server Num Event → List (ℤ × Text)
  responses s = gather response_of s.session.sent

  vars_from-sent :
      (kvs : List (Text × Value Num)) (s : Session Num) → (vars_from R T kvs s).0.sent ≡ s.sent
  unfolding vars_from alloc_var
  vars_from-sent [] s = refl
  vars_from-sent ((k, Value.object sub) ∷ kvs) s = vars_from-sent kvs (alloc_var sub s).0
  vars_from-sent ((k, _) ∷ kvs) s = vars_from-sent kvs s

  stop_at-responses :
      (o : Option Event) (s : Server Num Event) → responses (stop_at R T o s) ≡ responses s
  unfolding stop_at terminated_event stopped_event
  stop_at-responses none s = gather-silent response_of (terminated_event R T) s.session refl
  stop_at-responses (some span) s =
      let t = thread_id_for (thread_key T s.by_sdk span) s.session in
      gather-silent response_of (stopped_event R T span (t.1.0)) (announce (t.1) (t.0)) refl
      ∙ (announce-responses (t.1) (t.0)
          ∙ gather-thread_id_for response_of (thread_key T s.by_sdk span) s.session)

  advance_and_stop-responses :
      (s : Server Num Event) → responses (advance_and_stop R T s) ≡ responses s
  unfolding advance_and_stop
  advance_and_stop-responses s =
      stop_at-responses (span_at R T (inc s.cursor) s.spans) (record s { cursor = inc s.cursor })

  on_launch-responses :
      (req : ℤ) (cmd : Text) (s : Server Num Event)
      → responses (on_launch R T req cmd s) ≡ responses s ++ (req, cmd) ∷ []
  unfolding on_launch
  on_launch-responses req cmd s = elim (Option-cases (T.replay s.trace_path).1) [
    | inl e ↦
        rw (e, on_launch)
          (gather-silent response_of (process_event R T)
              (send (response req cmd true [] none) s.session) refl
            ∙ gather-send response_of (response req cmd true [] none) s.session)
    | inr (m, e) ↦ rw (e, on_launch) (gather-send response_of _ s.session)
  ]

  on_scopes-responses :
      (req : ℤ) (cmd : Text) (o : Option Event) (s : Server Num Event)
      → responses (on_scopes R T req cmd o s) ≡ responses s ++ (req, cmd) ∷ []
  unfolding on_scopes alloc_var
  on_scopes-responses req cmd none s = gather-send response_of _ s.session
  on_scopes-responses req cmd (some span) s =
      gather-send response_of _ (alloc_var (span_as_map T span) s.session).0

  on_variables-responses :
      (req : ℤ) (cmd : Text) (ref : ℤ) (o : Option (Entries Num)) (s : Server Num Event)
      → responses (on_variables R T req cmd ref o s) ≡ responses s ++ (req, cmd) ∷ []
  unfolding on_variables vars_from_map
  on_variables-responses req cmd ref none s = gather-send response_of _ s.session
  on_variables-responses req cmd ref (some m) s =
      gather-send response_of _ (vars_from_map R T m s.session).0
      ∙ ap (λ ms. gather response_of ms ++ (req, cmd) ∷ [])
          (vars_from-sent (sort_entries (pairs m)) s.session)

  on_disconnect-responses :
      (req : ℤ) (cmd : Text) (s : Server Num Event)
      → responses (on_disconnect R T req cmd s) ≡ responses s ++ (req, cmd) ∷ []
  unfolding on_disconnect terminated_event
  on_disconnect-responses req cmd s = elim (Bool-cases s.terminated) [
    | inl e ↦ rw (e, on_disconnect) (gather-send response_of _ s.session)
    | inr e ↦
        rw (e, on_disconnect)
          (gather-silent response_of (terminated_event R T)
              (send (response req cmd true [] none) s.session) refl
            ∙ gather-send response_of (response req cmd true [] none) s.session)
  ]

  handle_command-responses :
      (c : Command) (req : ℤ) (cmd : Text) (args : Entries Num) (s : Server Num Event)
      → responses (handle_command R T c req cmd args s).0 ≡ responses s ++ (req, cmd) ∷ []
  unfolding handle_command
  handle_command-responses initialize req cmd args s =
      let answer : Content Num = response req cmd true [] (capabilities R T) in
      gather-silent response_of (event (text "initialized") none) (send answer s.session) refl
      ∙ gather-send response_of answer s.session
  handle_command-responses launch req cmd args s = on_launch-responses req cmd s
  handle_command-responses configuration_done req cmd args s =
      advance_and_stop-responses (succeed R T req cmd none s)
      ∙ gather-send response_of (response req cmd true [] none) s.session
  handle_command-responses threads req cmd args s = gather-send response_of _ s.session
  handle_command-responses stack_trace req cmd args s = gather-send response_of _ s.session
  handle_command-responses scopes req cmd args s =
      on_scopes-responses req cmd (current_span R T s) s
  handle_command-responses variables req cmd args s =
      let ref = int_at R T (text "variablesReference") args in
      on_variables-responses req cmd ref (get_ref ref s.session.var_refs) s
  handle_command-responses continue req cmd args s =
      advance_and_stop-responses (succeed R T req cmd (one_thread R T) s)
      ∙ gather-send response_of (response req cmd true [] (one_thread R T)) s.session
  handle_command-responses next req cmd args s =
      advance_and_stop-responses (succeed R T req cmd (one_thread R T) s)
      ∙ gather-send response_of (response req cmd true [] (one_thread R T)) s.session
  handle_command-responses disconnect req cmd args s = on_disconnect-responses req cmd s
  handle_command-responses terminate req cmd args s = on_disconnect-responses req cmd s
  handle_command-responses other req cmd args s = gather-send response_of _ s.session

  -- Every request gets exactly one response, with its number and its command, whatever the command is
  -- and whether it succeeds.
  pub handle-responses :
      (msg : Entries Num) (s : Server Num Event)
      → str_eq (string_at (text "type") msg) (text "request") ≡ true
      → responses (handle R T msg s).0
        ≡ responses s ++ (int_at R T (text "seq") msg, string_at (text "command") msg) ∷ []
  unfolding handle
  handle-responses msg s e =
      let cmd = string_at (text "command") msg in
      rw (e, handle)
        (handle_command-responses (command_of cmd) (int_at R T (text "seq") msg) cmd
          (object_at R T (text "arguments") msg) s)
