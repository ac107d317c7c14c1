-- ===== src/Examples/Traces.antt =====
-- The theorems on the trace debugger, with a trace of two spans. A message on the wire is a text in braces.
use ojs_conformance.Common.{
  ℕ, suc, ◌≤◌, Text, text, ℤ, pos, true, false, List, [], ◌∷◌, ◌++◌, Option, none, some, ◌≡◌, refl,
  arith, map, str_eq, atoi, get_elem?, length, take, ◌-◌, decimal,
}
use ojs_conformance.Json.{Value, Entries, end}
use ojs_conformance.Dap.{Trace, object_of, description, response, span_as_map}
use ojs_conformance.Dap.Server.{Server, current_span, scopes, get_ref}
use ojs_conformance.Dap.Handlers.{handle, handle_command, run, new_server}
use ojs_conformance.Dap.Requests.{IsServer, run-IsServer}
use ojs_conformance.Dap.References.{scope_body, run-scopes}
use ojs_conformance.Dap.Responses.{responses, handle-responses}
use ojs_conformance.Dap.Stepping.{advance, advance-current_span}
use ojs_conformance.Dap.Emitter.{emit}
use ojs_conformance.Dap.Stops.{stops, emit-stops}
use ojs_conformance.Dap.Sessions.{IsSession}
use ojs_conformance.Dap.Framing.{
  frame, bad_input, read_dap_messages, Format, read_messages, end_of_input, Scan, scanned,
  not_scanned,
}
use ojs_conformance.Dap.Streams.{IsReadable, frames, read_messages-frames}
use ojs_conformance.Examples.{whole}

-- An event is the kind of its span.
abbrev trace : Trace ℤ Text
trace = record {
  schema_version = λ e. text "0.1";
  envelope_id = λ e. text "env-1";
  sdk = λ e. text "go";
  lang = λ e. text "go";
  span_kind = λ e. e;
  started_at = λ e. [];
  duration_ms = λ e. pos 5;
  outcome = λ e. text "completed";
  attempt = λ e. pos 1;
  span_id = λ e. e;
  worker_id = λ e. [];
  parent_span_id = λ e. [];
  attrs = λ e. end;
  console_line = λ e. e;
  marshal = λ v. [];
  pid = pos 42;
  replay = λ path. (text "enqueue" ∷ text "work" ∷ [], none);
}

abbrev request : ℕ → Text → Entries ℤ
request seq command = object_of (
    (text "type", Value.string (text "request"))
    ∷ (text "seq", Value.float64 (pos seq))
    ∷ (text "command", Value.string command)
    ∷ [])

abbrev session : List (Entries ℤ)
session =
    request 1 (text "initialize")
    ∷ request 2 (text "launch")
    ∷ request 3 (text "configurationDone")
    ∷ request 4 (text "scopes")
    ∷ request 5 (text "next")
    ∷ []

abbrev start : Server ℤ Text
start = new_server whole trace (text "trace.jsonl") false

run-IsServer_example : IsServer whole trace IsSession (run whole trace session start)
run-IsServer_example = run-IsServer whole trace (text "trace.jsonl") false session

handle-responses_example :
    responses whole trace (handle whole trace (request 1 (text "initialize")) start).0
    ≡ responses whole trace start ++ (pos 1, text "initialize") ∷ []
unfolding str_eq
handle-responses_example = handle-responses whole trace (request 1 (text "initialize")) start refl

-- The server with its trace.
abbrev loaded : Server ℤ Text
loaded = record start { spans = text "enqueue" ∷ text "work" ∷ [] }

advance-current_span_example :
    (current_span whole trace (advance whole trace 2 loaded)
      ≡ get_elem? (text "enqueue" ∷ text "work" ∷ []) 1)
    × (2 ≤ 1 → (advance whole trace 2 loaded).terminated ≡ true)
advance-current_span_example = advance-current_span whole trace loaded refl 1

emit-stops_example :
    let s = emit trace false (text "enqueue" ∷ text "work" ∷ []) 2 0 in
    (stops s.sent ≡ map (description trace) (text "enqueue" ∷ text "work" ∷ [])) × IsSession s
emit-stops_example = emit-stops trace false (text "enqueue" ∷ text "work" ∷ []) 2 0

abbrev scan_int : Text → Scan
scan_int s = elim (atoi s) [ none ↦ not_scanned false | some z ↦ scanned z ]

-- A message is a number and a text. On the wire it is the text in braces; the number is lost.
abbrev unbrace : Text → Option (ℕ × Text)
unbrace [] = none
unbrace (c ∷ cs) = some (0, take (length cs - 1) cs)

abbrev braces : Format (ℕ × Text)
braces = record { marshal = λ m. b'{' ∷ m.1 ++ b'}' ∷ []; unmarshal = unbrace; scan_int = scan_int }

abbrev without_number : ℕ × Text → ℕ × Text
without_number m = (0, m.1)

abbrev hello : ℕ × Text
hello = (1, text "hello")

abbrev bye : ℕ × Text
bye = (2, text "bye\n")

hello-IsReadable : IsReadable braces without_number hello
unfolding atoi decimal
hello-IsReadable = record { unmarshals = refl; nonempty = λ e. ground arith; scans = refl }

bye-IsReadable : IsReadable braces without_number bye
unfolding atoi decimal
bye-IsReadable = record { unmarshals = refl; nonempty = λ e. ground arith; scans = refl }

read_messages-frames_example :
    read_messages braces 3 (frames braces without_number (hello ∷ bye ∷ []))
    ≡ ((0, text "hello") ∷ (0, text "bye\n") ∷ [], end_of_input)
read_messages-frames_example =
    read_messages-frames braces without_number (hello ∷ bye ∷ []) 3 (omega arith)
      (hello-IsReadable, (bye-IsReadable, tt))

-- A stream that ends behind a header, and one that ends behind the headers.
abbrev cut_stream : Text
cut_stream = frame braces hello ++ text "Content-Length: 5\r\n"

cut_stream_end :
    ((read_messages braces 3 cut_stream).1 ≡ bad_input false)
    × ((read_dap_messages braces 3 cut_stream).1 ≡ end_of_input)
unfolding read_messages read_dap_messages frame atoi
cut_stream_end = (refl, refl)

no_body_end :
    ((read_messages braces 3 (text "Content-Length: 5\r\n\r\n")).1 ≡ end_of_input)
    × ((read_dap_messages braces 3 (text "Content-Length: 5\r\n\r\n")).1 ≡ bad_input true)
unfolding read_messages read_dap_messages atoi
no_body_end = (refl, refl)

abbrev opening : List (Entries ℤ)
opening =
    request 1 (text "initialize")
    ∷ request 2 (text "launch")
    ∷ request 3 (text "configurationDone")
    ∷ []

opening_span : current_span whole trace (run whole trace opening start) ≡ some (text "enqueue")
unfolding run handle current_span
opening_span = refl

run-scopes_example :
    let s = run whole trace opening start in
    let answered = (handle_command whole trace scopes (pos 4) (text "scopes") end s).0 in
    (ref : ℕ) × (answered.session.sent
      ≡ s.session.sent
        ++ record {
          seq = suc s.session.seq;
          content = response (pos 4) (text "scopes") true [] (some (scope_body whole trace ref));
        }
          ∷ [])
    × (get_ref (pos ref) (run whole trace session answered).session.var_refs
        ≡ some (span_as_map trace (text "enqueue")))
run-scopes_example =
    run-scopes whole trace (text "trace.jsonl") false opening session (pos 4) (text "scopes") end
      (text "enqueue") opening_span
