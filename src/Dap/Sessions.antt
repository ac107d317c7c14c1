-- ===== src/Dap/Sessions.antt =====
-- What the operations of a session (cmd/exec-history-dap/serve.go, main.go) keep: the messages are
-- numbered, and no thread id or variable reference is handed out twice.
use ojs_conformance.Common.{
  ℕ, zero, suc, ◌<◌, ◌≤◌, Text, Bool, List, [], ◌∷◌, ◌++◌, ◌≡◌, ◌≢◌, ◌∙◌, ap, refl, arith, All, map,
  Option-cases, inl, inr,
}
use ojs_conformance.Json.{Entries}
use ojs_conformance.Dap.{
  Content, Session, send, thread_id_for, alloc_var, announce, get_id, new_session,
}
use ojs_conformance.Dap.Closed.{IsClosed, announce-Closed}

-- The numbers from 1 to n.
abbrev pub upto : ℕ → List ℕ
upto zero = []
upto (suc n) = upto n ++ suc n ∷ []

abbrev pub DistinctIds : List (Text × ℕ) → Type 0
DistinctIds [] = Unit
DistinctIds (t ∷ ts) = All (λ u. t.1 ≢ u.1) ts × DistinctIds ts

abbrev pub DistinctRefs : {A : Type 0} → List (ℕ × A) → Type 0
DistinctRefs [] = Unit
DistinctRefs (v ∷ vs) = All (λ w. v.0 ≢ w.0) vs × DistinctRefs vs

module _ {Num : Type 0} where
  pub record IsSession (s : Session Num) : Type 0 where
    pub numbered : map (λ m. m.seq) s.sent ≡ upto s.seq
    pub ids_below : All (λ t. t.1 < s.next_tid) s.thread_ids
    pub ids_distinct : DistinctIds s.thread_ids
    pub refs_below : All (λ v. v.0 < s.next_var) s.var_refs
    pub refs_structured : 1000 ≤ s.next_var
    pub refs_from : All (λ v. 1000 ≤ v.0) s.var_refs
    pub refs_distinct : DistinctRefs s.var_refs

  pub new_session-IsSession : IsSession new_session
  new_session-IsSession = record {
    numbered = refl;
    ids_below = tt;
    ids_distinct = tt;
    refs_below = tt;
    refs_structured = omega arith;
    refs_from = tt;
    refs_distinct = tt;
  }

All-suc-id : (n : ℕ) (ts : List (Text × ℕ)) → All (λ t. t.1 < n) ts → All (λ t. t.1 < suc n) ts
All-suc-id n [] h = tt
All-suc-id n (t ∷ ts) (h, hs) = (omega arith, All-suc-id n ts hs)

All-suc-ref :
    {A : Type 0} (n : ℕ) (vs : List (ℕ × A)) → All (λ v. v.0 < n) vs → All (λ v. v.0 < suc n) vs
All-suc-ref n [] h = tt
All-suc-ref n (v ∷ vs) (h, hs) = (omega arith, All-suc-ref n vs hs)

next-Distinct : (n : ℕ) (ts : List (Text × ℕ)) → All (λ t. t.1 < n) ts → All (λ u. n ≢ u.1) ts
next-Distinct n [] h = tt
next-Distinct n (t ∷ ts) (h, hs) = ((λ e. omega arith), next-Distinct n ts hs)

next-DistinctRefs :
    {A : Type 0} (n : ℕ) (vs : List (ℕ × A)) → All (λ v. v.0 < n) vs → All (λ w. n ≢ w.0) vs
next-DistinctRefs n [] h = tt
next-DistinctRefs n (v ∷ vs) (h, hs) = ((λ e. omega arith), next-DistinctRefs n vs hs)

map-snoc :
    {A : Type 0} (f : A → ℕ) (xs : List A) (x : A) → map f (xs ++ x ∷ []) ≡ map f xs ++ f x ∷ []
map-snoc f [] x = refl
map-snoc f (y ∷ ys) x = ap (◌∷◌ (f y)) (map-snoc f ys x)

module _ {Num : Type 0} where
  pub send-IsSession : (c : Content Num) (s : Session Num) → IsSession s → IsSession (send c s)
  unfolding send
  send-IsSession c s h = record {
    numbered =
        map-snoc (λ m. m.seq) s.sent (record { seq = suc s.seq; content = c })
        ∙ ap (λ ns. ns ++ suc s.seq ∷ []) h.numbered;
    ids_below = h.ids_below;
    ids_distinct = h.ids_distinct;
    refs_below = h.refs_below;
    refs_structured = h.refs_structured;
    refs_from = h.refs_from;
    refs_distinct = h.refs_distinct;
  }

  pub thread_id_for-IsSession :
      (key : Text) (s : Session Num) → IsSession s → IsSession (thread_id_for key s).0
  unfolding thread_id_for
  thread_id_for-IsSession key s h = elim (Option-cases (get_id key s.thread_ids)) [
    | inr (id, e) ↦ rw (e, thread_id_for) h
    | inl e ↦
        rw (e, thread_id_for)
          (record {
            numbered = h.numbered;
            ids_below = (omega arith, All-suc-id s.next_tid s.thread_ids h.ids_below);
            ids_distinct = (next-Distinct s.next_tid s.thread_ids h.ids_below, h.ids_distinct);
            refs_below = h.refs_below;
            refs_structured = h.refs_structured;
            refs_from = h.refs_from;
            refs_distinct = h.refs_distinct;
          })
  ]

  pub alloc_var-IsSession :
      (v : Entries Num) (s : Session Num) → IsSession s → IsSession (alloc_var v s).0
  unfolding alloc_var
  alloc_var-IsSession v s h = record {
    numbered = h.numbered;
    ids_below = h.ids_below;
    ids_distinct = h.ids_distinct;
    refs_below = (omega arith, All-suc-ref s.next_var s.var_refs h.refs_below);
    refs_structured = omega (arith, h.refs_structured);
    refs_from = (h.refs_structured, h.refs_from);
    refs_distinct = (next-DistinctRefs s.next_var s.var_refs h.refs_below, h.refs_distinct);
  }

  pub IsSession-IsClosed : IsClosed {Num = Num} IsSession
  IsSession-IsClosed = record {
    sends = send-IsSession;
    threads = thread_id_for-IsSession;
    allocs = alloc_var-IsSession;
  }

  pub announce-IsSession : (t : ℕ × Bool) (s : Session Num) → IsSession s → IsSession (announce t s)
  announce-IsSession t s h = announce-Closed IsSession-IsClosed t s h
