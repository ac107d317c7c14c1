-- ===== src/Dap/References.antt =====
-- The references to variables that cmd/exec-history-dap/serve.go hands out.
use ojs_conformance.Common.{
  ap, ◌∙◌, Option-cases, ℕ, suc, ◌<◌, ◌==◌, Text, text, ℤ, pos, Bool, true, false, List, [], ◌∷◌,
  ◌++◌, some, ◌≡◌, refl, arith, All, Bool-cases, inl, inr,
}
use ojs_conformance.Json.{Runtime, Value, Entries}
use ojs_conformance.Dap.{
  Trace, Content, response, get_id, Session, send, thread_id_for, alloc_var, object_of, span_as_map,
}
use ojs_conformance.Dap.Server.{scopes, array_of, get_ref, current_span}
use ojs_conformance.Dap.Handlers.{handle_command, on_scopes, run, new_server}
use ojs_conformance.Dap.Closed.{IsClosed}
use ojs_conformance.Dap.Sessions.{
  IsSession, send-IsSession, thread_id_for-IsSession, alloc_var-IsSession,
}
use ojs_conformance.Dap.Requests.{IsServer, run-IsServer-from, run-IsServer}

get_ref-below :
    {A : Type 0} {m : Entries A} (k n : ℕ) (vs : List (ℕ × Entries A))
    → All (λ v. v.0 < k) vs
    → get_ref (pos n) vs ≡ some m
    → n < k
get_ref-below k n [] h e = absurd (ground arith)
get_ref-below k n ((r, m) ∷ vs) (a, h) e = elim (Bool-cases (r == n)) [
  | inl q ↦ ground arith
  | inr q ↦ get_ref-below k n vs h (rw q at e)
]

-- A session in order in which the reference `n` stands for the variables `m`.
abbrev Holds : {Num : Type 0} → ℕ → Entries Num → Session Num → Type 0
Holds n m s = IsSession s × (get_ref (pos n) s.var_refs ≡ some m)

thread_id_for-var_refs :
    {Num : Type 0} (key : Text) (s : Session Num) → (thread_id_for key s).0.var_refs ≡ s.var_refs
unfolding thread_id_for
thread_id_for-var_refs key s = elim (Option-cases (get_id key s.thread_ids)) [
  | inl e ↦ rw (e, thread_id_for) refl
  | inr (id, e) ↦ rw (e, thread_id_for) refl
]

Holds-IsClosed : {Num : Type 0} (n : ℕ) (m : Entries Num) → IsClosed (Holds n m)
unfolding send alloc_var
Holds-IsClosed n m = record {
  sends = λ c s h. (send-IsSession c s h.0, h.1);
  threads = λ key s h. (
    thread_id_for-IsSession key s h.0,
    ap (get_ref (pos n)) (thread_id_for-var_refs key s) ∙ h.1,
  );
  allocs = λ v s h.
      let below = get_ref-below s.next_var n s.var_refs (h.0.refs_below) h.1 in
      let other : (s.next_var == n) ≡ false = ground arith in
      (alloc_var-IsSession v s h.0, rw other h.1);
}

module _ {Num Event : Type 0} (R : Runtime Num) (T : Trace Num Event) where
  -- The body of the response with one scope.
  abbrev pub scope_body : ℕ → Value Num
  scope_body ref = Value.object (
      object_of (
        (
          text "scopes",
          array_of (
              Value.object (
                object_of (
                  (text "name", Value.string (text "Span"))
                  ∷ (text "variablesReference", Value.int (pos ref))
                  ∷ (text "expensive", Value.bool false)
                  ∷ []))
              ∷ []),
        )
        ∷ []))

  -- A reference that is handed out now stands for its variables from now on.
  alloc_var-Holds :
      (m : Entries Num) (c : Content Num) (s : Session Num)
      → IsSession s
      → Holds s.next_var m (send c (alloc_var m s).0)
  unfolding send alloc_var
  alloc_var-Holds m c s h =
      let same : (s.next_var == s.next_var) ≡ true = ground arith in
      (send-IsSession c _ (alloc_var-IsSession m s h), rw same refl)

  -- Whatever messages came before, a server that stands on a span answers a request for the scopes with
  -- one reference; and whatever messages follow, this reference stands for the fields of that span.
  pub run-scopes :
      (trace_path : Text) (by_sdk : Bool) (before later : List (Entries Num)) (req : ℤ) (cmd : Text)
      → (args : Entries Num) (span : Event)
      → current_span R T (run R T before (new_server R T trace_path by_sdk)) ≡ some span
      → let s = run R T before (new_server R T trace_path by_sdk) in
        let answered = (handle_command R T scopes req cmd args s).0 in
        (ref : ℕ) × (answered.session.sent
          ≡ s.session.sent
            ++ record {
              seq = suc s.session.seq;
              content = response req cmd true [] (some (scope_body ref));
            }
              ∷ [])
        × (get_ref (pos ref) (run R T later answered).session.var_refs ≡ some (span_as_map T span))
  unfolding handle_command on_scopes send alloc_var
  run-scopes trace_path by_sdk before later req cmd args span e =
      let s = run R T before (new_server R T trace_path by_sdk) in
      let h = run-IsServer R T trace_path by_sdk before in
      let m = span_as_map T span in
      let c = response req cmd true [] (some (scope_body s.session.next_var)) in
      let held : IsServer R T (Holds s.session.next_var m)
          (record s { session = send c (alloc_var m s.session).0 }) =
        record { session = alloc_var-Holds m c s.session h.session; on_span = h.on_span } in
      rw (e, handle_command)
        (
          s.session.next_var,
          refl,
          (run-IsServer-from R T (Holds-IsClosed s.session.next_var m) later _ held).session.1,
        )
