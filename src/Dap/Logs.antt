-- ===== src/Dap/Logs.antt =====
-- What the messages of a session (cmd/exec-history-dap/serve.go, main.go) have of one kind.
use ojs_conformance.Common.{
  Text, List, [], ◌∷◌, ◌++◌, ◌≡◌, ◌∙◌, ap, sym, refl, append_assoc, append-nil, Option-cases, inl,
  inr,
}
use ojs_conformance.Dap.{Content, Message, Session, send, thread_id_for, get_id}

module _ {Num : Type 0} {A : Type 0} (f : Content Num → List A) where
  -- What `f` finds in the messages.
  abbrev pub gather : List (Message Num) → List A
  gather [] = []
  gather (m ∷ ms) = f m.content ++ gather ms

  gather-append : (ms ns : List (Message Num)) → gather (ms ++ ns) ≡ gather ms ++ gather ns
  gather-append [] ns = refl
  gather-append (m ∷ ms) ns =
      ap (λ xs. f m.content ++ xs) (gather-append ms ns)
      ∙ sym (append_assoc (f m.content) (gather ms) (gather ns))

  pub gather-send :
      (c : Content Num) (s : Session Num) → gather (send c s).sent ≡ gather s.sent ++ f c
  unfolding send
  gather-send c s = gather-append s.sent _ ∙ ap (λ xs. gather s.sent ++ xs) (append-nil (f c))

  -- A message in which `f` finds nothing.
  pub gather-silent :
      (c : Content Num) (s : Session Num) → f c ≡ [] → gather (send c s).sent ≡ gather s.sent
  gather-silent c s e =
      gather-send c s ∙ (ap (λ xs. gather s.sent ++ xs) e ∙ append-nil (gather s.sent))

  pub gather-thread_id_for :
      (key : Text) (s : Session Num) → gather (thread_id_for key s).0.sent ≡ gather s.sent
  unfolding thread_id_for
  gather-thread_id_for key s = elim (Option-cases (get_id key s.thread_ids)) [
    | inl e ↦ rw (e, thread_id_for) refl
    | inr (id, e) ↦ rw (e, thread_id_for) refl
  ]
