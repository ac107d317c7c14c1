-- ===== src/Dap/Requests.antt =====
-- What every request of cmd/exec-history-dap/serve.go keeps.
use ojs_conformance.Common.{
  ℕ, zero, suc, Text, text, ℤ, pos, negsuc, inc, Bool, true, List, [], ◌∷◌, ◌++◌, Option, none,
  some, ◌≡◌, refl, arith, get_elem?, Option-cases, Bool-cases, inl, inr, str_eq,
}
use ojs_conformance.Json.{Runtime, Entries}
use ojs_conformance.Dap.{
  Trace, Content, Session, send, thread_id_for, announce, span_as_map, thread_key,
}
use ojs_conformance.Dap.Server.{
  Server, Command, initialize, launch, configuration_done, threads, stack_trace, scopes, variables,
  continue, next, disconnect, terminate, other, command_of, int_at, object_at, string_at, span_at,
  current_span, stop_at, stopped_event, advance_and_stop, with_session,
}
use ojs_conformance.Dap.Handlers.{
  on_launch, on_scopes, on_variables, on_disconnect, handle_command, handle, run, new_server,
}
use ojs_conformance.Dap.Closed.{IsClosed, announce-Closed, vars_from_map-Closed}
use ojs_conformance.Dap.Sessions.{IsSession, IsSession-IsClosed, new_session-IsSession}

get_elem?-append :
    {A : Type 0} (xs ys : List A) (i : ℕ) {a : A}
    → get_elem? xs i ≡ some a
    → get_elem? (xs ++ ys) i ≡ some a
get_elem?-append [] ys i h = absurd (ground arith)
get_elem?-append (x ∷ xs) ys zero h = h
get_elem?-append (x ∷ xs) ys (suc i) h = get_elem?-append xs ys i h

module _ {Num Event : Type 0} (R : Runtime Num) (T : Trace Num Event) where
  -- The session has the property, and a stopped server stands on a span of the trace.
  pub record IsServer (P : Session Num → Type 0) (s : Server Num Event) : Type 0 where
    pub session : P s.session
    pub on_span : s.stopped ≡ true → (ev : Event) × (span_at R T s.cursor s.spans ≡ some ev)

  span_at-append :
      (i : ℤ) (xs ys : List Event) {ev : Event}
      → span_at R T i xs ≡ some ev
      → span_at R T i (xs ++ ys) ≡ some ev
  span_at-append (pos n) xs ys h = get_elem?-append xs ys n h
  span_at-append (negsuc n) xs ys h = absurd (ground arith)

module _ {Num Event : Type 0} (R : Runtime Num) (T : Trace Num Event) {P : Session Num → Type 0}
    (K : IsClosed P) where
  pub with_send-IsServer :
      (c : Content Num) (s : Server Num Event)
      → IsServer R T P s
      → IsServer R T P (with_session R T (send c) s)
  with_send-IsServer c s h = record { session = K.sends c s.session h.session; on_span = h.on_span }

  stop_at-IsServer :
      (o : Option Event) (s : Server Num Event)
      → span_at R T s.cursor s.spans ≡ o
      → P s.session
      → IsServer R T P (stop_at R T o s)
  unfolding stop_at
  stop_at-IsServer none s e h = record {
    session = K.sends _ s.session h;
    on_span = λ x. ground arith;
  }
  stop_at-IsServer (some span) s e h =
      let t = thread_id_for (thread_key T s.by_sdk span) s.session in
      record {
        session =
            K.sends (stopped_event R T span (t.1.0)) (announce (t.1) (t.0))
              (announce-Closed K (t.1) (t.0) (K.threads (thread_key T s.by_sdk span) s.session h));
        on_span = λ x. (span, e);
      }

  advance_and_stop-IsServer :
      (s : Server Num Event) → IsServer R T P s → IsServer R T P (advance_and_stop R T s)
  unfolding advance_and_stop
  advance_and_stop-IsServer s h =
      stop_at-IsServer (span_at R T (inc s.cursor) s.spans) (record s { cursor = inc s.cursor })
        refl h.session

  on_launch-IsServer :
      (req : ℤ) (cmd : Text) (s : Server Num Event)
      → IsServer R T P s
      → IsServer R T P (on_launch R T req cmd s)
  unfolding on_launch
  on_launch-IsServer req cmd s h =
      let loaded : Server Num Event = record s { spans = s.spans ++ (T.replay s.trace_path).0 } in
      let kept : IsServer R T P loaded = record {
        session = h.session;
        on_span = λ x.
            let (ev, e) = h.on_span x in
            (ev, span_at-append R T s.cursor s.spans (T.replay s.trace_path).0 e);
      } in
      elim (Option-cases (T.replay s.trace_path).1) [
        | inl e ↦ rw (e, on_launch) (with_send-IsServer _ _ (with_send-IsServer _ loaded kept))
        | inr (m, e) ↦ rw (e, on_launch) (with_send-IsServer _ loaded kept)
      ]

  on_scopes-IsServer :
      (req : ℤ) (cmd : Text) (o : Option Event) (s : Server Num Event)
      → IsServer R T P s
      → IsServer R T P (on_scopes R T req cmd o s)
  unfolding on_scopes
  on_scopes-IsServer req cmd none s h = with_send-IsServer _ s h
  on_scopes-IsServer req cmd (some span) s h = record {
    session = K.sends _ _ (K.allocs (span_as_map T span) s.session h.session);
    on_span = h.on_span;
  }

  on_variables-IsServer :
      (req : ℤ) (cmd : Text) (ref : ℤ) (o : Option (Entries Num)) (s : Server Num Event)
      → IsServer R T P s
      → IsServer R T P (on_variables R T req cmd ref o s)
  unfolding on_variables
  on_variables-IsServer req cmd ref none s h = with_send-IsServer _ s h
  on_variables-IsServer req cmd ref (some m) s h = record {
    session = K.sends _ _ (vars_from_map-Closed R T K m s.session h.session);
    on_span = h.on_span;
  }

  on_disconnect-IsServer :
      (req : ℤ) (cmd : Text) (s : Server Num Event)
      → IsServer R T P s
      → IsServer R T P (on_disconnect R T req cmd s)
  unfolding on_disconnect
  on_disconnect-IsServer req cmd s h = elim (Bool-cases s.terminated) [
    | inl e ↦
        rw (e, on_disconnect)
          (record { session = K.sends _ s.session h.session; on_span = h.on_span })
    | inr e ↦
        rw (e, on_disconnect)
          (record { session = K.sends _ _ (K.sends _ s.session h.session); on_span = h.on_span })
  ]

  handle_command-IsServer :
      (c : Command) (req : ℤ) (cmd : Text) (args : Entries Num) (s : Server Num Event)
      → IsServer R T P s
      → IsServer R T P (handle_command R T c req cmd args s).0
  unfolding handle_command
  handle_command-IsServer initialize req cmd args s h =
      with_send-IsServer _ _ (with_send-IsServer _ s h)
  handle_command-IsServer launch req cmd args s h = on_launch-IsServer req cmd s h
  handle_command-IsServer configuration_done req cmd args s h =
      advance_and_stop-IsServer _ (with_send-IsServer _ s h)
  handle_command-IsServer threads req cmd args s h = with_send-IsServer _ s h
  handle_command-IsServer stack_trace req cmd args s h = with_send-IsServer _ s h
  handle_command-IsServer scopes req cmd args s h =
      on_scopes-IsServer req cmd (current_span R T s) s h
  handle_command-IsServer variables req cmd args s h = on_variables-IsServer req cmd _ _ s h
  handle_command-IsServer continue req cmd args s h =
      advance_and_stop-IsServer _ (with_send-IsServer _ s h)
  handle_command-IsServer next req cmd args s h =
      advance_and_stop-IsServer _ (with_send-IsServer _ s h)
  handle_command-IsServer disconnect req cmd args s h = on_disconnect-IsServer req cmd s h
  handle_command-IsServer terminate req cmd args s h = on_disconnect-IsServer req cmd s h
  handle_command-IsServer other req cmd args s h = with_send-IsServer _ s h

  handle-IsServer :
      (msg : Entries Num) (s : Server Num Event)
      → IsServer R T P s
      → IsServer R T P (handle R T msg s).0
  unfolding handle
  handle-IsServer msg s h =
      elim (Bool-cases (str_eq (string_at (text "type") msg) (text "request"))) [
        | inl e ↦
            let cmd = string_at (text "command") msg in
            rw (e, handle)
              (handle_command-IsServer (command_of cmd) (int_at R T (text "seq") msg) cmd
                (object_at R T (text "arguments") msg) s h)
        | inr e ↦ rw (e, handle) h
      ]

  pub run-IsServer-from :
      (msgs : List (Entries Num)) (s : Server Num Event)
      → IsServer R T P s
      → IsServer R T P (run R T msgs s)
  unfolding run
  run-IsServer-from [] s h = h
  run-IsServer-from (msg ∷ msgs) s h = elim (Bool-cases (handle R T msg s).1) [
    | inl e ↦ rw (e, run) (handle-IsServer msg s h)
    | inr e ↦ rw (e, run) (run-IsServer-from msgs (handle R T msg s).0 (handle-IsServer msg s h))
  ]

module _ {Num Event : Type 0} (R : Runtime Num) (T : Trace Num Event) where
  -- Whatever messages come in, the server numbers its messages 1, 2, 3 and so on, gives no two threads
  -- the same id, keeps its maps of variables under references that are distinct, from 1000 on and below
  -- the next one, and stands on a span of the trace whenever it is stopped.
  pub run-IsServer :
      (trace_path : Text) (by_sdk : Bool) (msgs : List (Entries Num))
      → IsServer R T IsSession (run R T msgs (new_server R T trace_path by_sdk))
  run-IsServer trace_path by_sdk msgs =
      run-IsServer-from R T IsSession-IsClosed msgs (new_server R T trace_path by_sdk)
        (record { session = new_session-IsSession; on_span = λ x. ground arith })
