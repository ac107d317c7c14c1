-- ===== src/Dap/Handlers.antt =====
-- cmd/exec-history-dap/serve.go: the requests that the server answers. The flag of a result says that
-- the loop ends (io.EOF).
use ojs_conformance.Common.{
  Text, text, ℤ, pos, Bool, true, false, List, [], ◌∷◌, ◌++◌, Option, none, some, str_eq, map,
  decimal_ℤ, if◌then◌else◌,
}
use ojs_conformance.Json.{Runtime, Value, Entries}
use ojs_conformance.Dap.{
  Trace, Content, event, response, new_session, send, alloc_var, object_of, span_as_map,
  description,
}
use ojs_conformance.Dap.Server.{
  Server, Command, initialize, launch, configuration_done, threads, stack_trace, scopes, variables,
  continue, next, disconnect, terminate, other, command_of, sort_threads, objects, get_ref,
  string_at, int_at, object_at, array_of, vars_from_map, current_span, with_session,
  terminated_event, advance_and_stop,
}

module _ {Num Event : Type 0} (R : Runtime Num) (T : Trace Num Event) where
  -- respond with success, and no message
  abbrev pub succeed : ℤ → Text → Option (Value Num) → Server Num Event → Server Num Event
  succeed req cmd body s = with_session R T (send (response req cmd true [] body)) s

  -- respond with a message and no success
  abbrev pub refuse : ℤ → Text → Text → Server Num Event → Server Num Event
  refuse req cmd message s = with_session R T (send (response req cmd false message none)) s

  abbrev pub some_body : List (Text × Value Num) → Option (Value Num)
  some_body kvs = some (Value.object (object_of kvs))

  abbrev pub process_event : Content Num
  process_event = event (text "process") (
      some_body (
        (text "name", Value.string (text "ojs-exec-history"))
        ∷ (text "systemProcessId", Value.int T.pid)
        ∷ (text "isLocalProcess", Value.bool true)
        ∷ (text "startMethod", Value.string (text "launch"))
        ∷ []))

  abbrev pub capabilities : Option (Value Num)
  capabilities = some_body (
      (text "supportsConfigurationDoneRequest", Value.bool true)
      ∷ (text "supportsTerminateRequest", Value.bool true)
      ∷ (text "supportsStepBack", Value.bool false)
      ∷ [])

  abbrev pub one_thread : Option (Value Num)
  one_thread = some_body ((text "allThreadsContinued", Value.bool false) ∷ [])

  -- loadTrace and the answer to it; the events in front of an invalid one are kept.
  unfoldable pub on_launch : ℤ → Text → Server Num Event → Server Num Event
  unfolding send
  on_launch req cmd s =
      let (events, error) = T.replay s.trace_path in
      let loaded : Server Num Event = record s { spans = s.spans ++ events } in
      elim error [
        | some message ↦ refuse req cmd message loaded
        | none ↦ with_session R T (send process_event) (succeed req cmd none loaded)
      ]

  stack_frame : Server Num Event → Event → Value Num
  stack_frame s span = Value.object (
      object_of (
        (text "id", Value.int (pos 1))
        ∷ (text "name", Value.string (description T span))
        ∷ (text "line", Value.int (pos 1))
        ∷ (text "column", Value.int (pos 1))
        ∷ (
          text "source",
          Value.object (
              object_of (
                (text "name", Value.string (T.sdk span))
                ∷ (text "path", Value.string s.trace_path)
                ∷ [])),
        )
        ∷ []))

  stack : Server Num Event → Option Event → List (Text × Value Num)
  unfolding stack_frame
  stack s none = (text "stackFrames", array_of []) ∷ (text "totalFrames", Value.int (pos 0)) ∷ []
  stack s (some span) =
      (text "stackFrames", array_of (stack_frame s span ∷ []))
      ∷ (text "totalFrames", Value.int (pos 1))
      ∷ []

  -- The scope of the current span, with a new reference to its variables.
  unfoldable pub on_scopes : ℤ → Text → Option Event → Server Num Event → Server Num Event
  unfolding send alloc_var span_as_map
  on_scopes req cmd none s = succeed req cmd (some_body ((text "scopes", array_of []) ∷ [])) s
  on_scopes req cmd (some span) s =
      let a = alloc_var (span_as_map T span) s.session in
      let scope = Value.object (
        object_of (
          (text "name", Value.string (text "Span"))
          ∷ (text "variablesReference", Value.int (pos (a.1)))
          ∷ (text "expensive", Value.bool false)
          ∷ [])) in
      succeed req cmd (some_body ((text "scopes", array_of (scope ∷ [])) ∷ []))
        (record s { session = a.0 })

  -- The variables of a reference.
  unfoldable pub on_variables :
      ℤ → Text → ℤ → Option (Entries Num) → Server Num Event → Server Num Event
  unfolding send vars_from_map
  on_variables req cmd ref none s =
      refuse req cmd (text "unknown variablesReference " ++ decimal_ℤ ref) s
  on_variables req cmd ref (some m) s =
      let v = vars_from_map R T m s.session in
      succeed req cmd (some_body ((text "variables", array_of (v.1)) ∷ []))
        (record s { session = v.0 })

  -- The event at the end, unless it was sent before.
  unfoldable pub on_disconnect : ℤ → Text → Server Num Event → Server Num Event
  unfolding send terminated_event
  on_disconnect req cmd s =
      let answered = succeed req cmd none s in
      if s.terminated
      then answered
      else record (with_session R T (send (terminated_event R T)) answered) { terminated = true }

  -- The switch of handle, on the request's number, its command and its arguments.
  unfoldable pub handle_command :
      Command → ℤ → Text → Entries Num → Server Num Event → Server Num Event × Bool
  unfolding send on_launch on_scopes on_variables on_disconnect advance_and_stop current_span stack
      sort_threads
  handle_command initialize req cmd args s = (
    with_session R T (send (event (text "initialized") none)) (succeed req cmd capabilities s),
    false,
  )
  handle_command launch req cmd args s = (on_launch req cmd s, false)
  handle_command configuration_done req cmd args s =
      (advance_and_stop R T (succeed req cmd none s), false)
  handle_command threads req cmd args s = (
    succeed req cmd
        (some_body
          ((text "threads", array_of (map objects (sort_threads s.session.thread_ids))) ∷ []))
        s,
    false,
  )
  handle_command stack_trace req cmd args s =
      (succeed req cmd (some_body (stack s (current_span R T s))) s, false)
  handle_command scopes req cmd args s = (on_scopes req cmd (current_span R T s) s, false)
  handle_command variables req cmd args s =
      let ref = int_at R T (text "variablesReference") args in
      (on_variables req cmd ref (get_ref ref s.session.var_refs) s, false)
  handle_command continue req cmd args s =
      (advance_and_stop R T (succeed req cmd one_thread s), false)
  handle_command next req cmd args s = (advance_and_stop R T (succeed req cmd one_thread s), false)
  handle_command disconnect req cmd args s = (on_disconnect req cmd s, true)
  handle_command terminate req cmd args s = (on_disconnect req cmd s, true)
  handle_command other req cmd args s =
      (refuse req cmd (text "unsupported command " ++ cmd) s, false)

  -- handle: what is no request is ignored.
  unfoldable pub handle : Entries Num → Server Num Event → Server Num Event × Bool
  unfolding str_eq command_of handle_command
  handle msg s =
      let cmd = string_at (text "command") msg in
      if str_eq (string_at (text "type") msg) (text "request")
      then handle_command (command_of cmd) (int_at R T (text "seq") msg) cmd
          (object_at R T (text "arguments") msg) s
      else (s, false)

  -- The loop of Run over the messages that come in.
  unfoldable pub run : List (Entries Num) → Server Num Event → Server Num Event
  unfolding handle
  run [] s = s
  run (msg ∷ msgs) s =
      let h = handle msg s in let rest = run msgs (h.0) in if h.1 then h.0 else rest

  -- newServer
  abbrev pub new_server : Text → Bool → Server Num Event
  new_server trace_path by_sdk = record {
    session = new_session;
    trace_path = trace_path;
    by_sdk = by_sdk;
    spans = [];
    cursor = ℤ.negsuc 0;
    stopped = false;
    terminated = false;
  }
