-- ===== src/Dap/Commands.antt =====
-- The commands of cmd/exec-history-dap: main, emitCmd (main.go) and serveCmd (serve.go). The parsing of
-- flags, the file system and the messages on stdin are fields of `System`; what usage and version
-- print is left out.
use ojs_conformance.Common.{
  ℕ, Text, text, Bool, true, false, List, [], ◌∷◌, ◌++◌, Option, none, some, ◌⊎◌, inl, inr, str_eq,
  Bool-cases, ◌≡◌, refl, if◌then◌else◌,
}
use ojs_conformance.Json.{Runtime, Entries}
use ojs_conformance.Dap.{Trace, Session, new_session}
use ojs_conformance.Dap.Server.{Server}
use ojs_conformance.Dap.Emitter.{emit_start, emit_spans, emit_end, emit}
use ojs_conformance.Dap.Handlers.{run, new_server}

pub record Flags : Type 0 where
  pub trace : Text
  pub strict : Bool
  pub thread_by : Text

-- What lib.Replay gives to its callback, and what it returns.
pub record Replayed (Event : Type 0) : Type 0 where
  pub events : List Event
  pub ingested : ℕ
  pub dropped : ℕ
  pub error : Option Text

pub record System (Num Event : Type 0) : Type 0 where
  -- FlagSet.Parse, for emit and for serve
  pub parse_emit : List Text → Text ⊎ Flags
  pub parse_serve : List Text → Text ⊎ Flags
  -- the error of os.Open
  pub open_error : Text → Option Text
  pub replay : Text → Bool → Replayed Event
  -- the requests on stdin, to its end
  pub requests : List (Entries Num)
  -- the verb %q
  pub quote : Text → Text

-- The grouping of threads that a flag names: by the sdk, or by the envelope.
unfoldable pub grouping : Text → Option Bool
unfolding str_eq
grouping s =
    if str_eq s (text "envelope")
    then some false
    else if str_eq s (text "sdk")
    then some true
    else none

module _ {Num Event : Type 0} (R : Runtime Num) (T : Trace Num Event) (S : System Num Event) where
  -- The checks that both commands make of their flags: the error, or the path and the grouping.
  abbrev pub check_flags : Flags → Text ⊎ (Text × Bool)
  unfolding grouping str_eq
  check_flags flags =
      if str_eq flags.trace []
      then inl (text "--trace is required")
      else elim (grouping flags.thread_by) [
        | none ↦ inl (text "--thread-by must be envelope|sdk, got " ++ S.quote flags.thread_by)
        | some by_sdk ↦ inr (flags.trace, by_sdk)
      ]

  -- emitCmd behind the flags: the error, if there is one, and the session with what was sent.
  unfoldable pub emit_trace : Text → Bool → Bool → Option Text × Session Num
  unfolding emit_start emit_spans emit_end str_eq
  emit_trace path strict by_sdk =
      let opened : Option Text = if str_eq path (text "-") then none else S.open_error path in
      let r = S.replay path strict in
      let sent = emit_spans T by_sdk r.events (emit_start T new_session) in
      elim opened [
        | some e ↦ (some e, new_session)
        | none ↦ elim r.error [
          | some e ↦ (some e, sent)
          | none ↦ (none, emit_end r.ingested r.dropped sent)
        ]
      ]

  -- emitCmd
  unfoldable pub emit_cmd : List Text → Option Text × Session Num
  unfolding emit_trace grouping str_eq
  emit_cmd args = elim (S.parse_emit args) [
    | inl e ↦ (some e, new_session)
    | inr flags ↦ elim (check_flags flags) [
      | inl e ↦ (some e, new_session)
      | inr (path, by_sdk) ↦ emit_trace path flags.strict by_sdk
    ]
  ]

  -- serveCmd: the error, or the server after the requests.
  unfoldable pub serve_cmd : List Text → Text ⊎ Server Num Event
  unfolding run grouping str_eq
  serve_cmd args = elim (S.parse_serve args) [
    | inl e ↦ inl e
    | inr flags ↦ elim (check_flags flags) [
      | inl e ↦ inl e
      | inr (path, by_sdk) ↦ inr (run R T S.requests (new_server R T path by_sdk))
    ]
  ]

  -- main: the exit code, from the arguments behind the name of the program.
  unfoldable pub dap_main : List Text → ℕ
  unfolding emit_cmd serve_cmd str_eq
  dap_main [] = 2
  dap_main (command ∷ args) =
      if str_eq command (text "emit")
      then elim (emit_cmd args).0 [ none ↦ 0 | some e ↦ 1 ]
      else if str_eq command (text "serve")
      then elim (serve_cmd args) [ inr s ↦ 0 | inl e ↦ 1 ]
      else if str_eq command (text "version")
      then 0
      else 2

  -- Without an error emitCmd writes the stream of the events that lib.Replay hands over.
  emit_trace-emit :
      (path : Text) (strict by_sdk : Bool)
      → ((str_eq path (text "-") ≡ true) ⊎ (S.open_error path ≡ none))
      → (S.replay path strict).error ≡ none
      → let r = S.replay path strict in
        emit_trace path strict by_sdk ≡ (none, emit T by_sdk r.events r.ingested r.dropped)
  unfolding emit_trace emit
  emit_trace-emit path strict by_sdk (inl e) h = rw (e, h, emit_trace) refl
  emit_trace-emit path strict by_sdk (inr e) h = elim (Bool-cases (str_eq path (text "-"))) [
    | inl f ↦ rw (f, h, emit_trace) refl
    | inr f ↦ rw (f, e, h, emit_trace) refl
  ]
