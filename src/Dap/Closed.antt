-- ===== src/Dap/Closed.antt =====
-- Predicates of a session of cmd/exec-history-dap that each of its operations keeps.
use ojs_conformance.Common.{ℕ, Text, Bool, true, false, List, [], ◌∷◌}
use ojs_conformance.Json.{Runtime, Value, Entries, pairs}
use ojs_conformance.Dap.{Trace, Content, Session, send, thread_id_for, alloc_var, announce}
use ojs_conformance.Dap.Server.{vars_from, vars_from_map, sort_entries}

pub record IsClosed {Num : Type 0} (P : Session Num → Type 0) : Type 0 where
  pub sends : (c : Content Num) (s : Session Num) → P s → P (send c s)
  pub threads : (key : Text) (s : Session Num) → P s → P (thread_id_for key s).0
  pub allocs : (v : Entries Num) (s : Session Num) → P s → P (alloc_var v s).0

module _ {Num : Type 0} {P : Session Num → Type 0} (K : IsClosed P) where
  pub announce-Closed : (t : ℕ × Bool) (s : Session Num) → P s → P (announce t s)
  unfolding announce
  announce-Closed (tid, false) s h = h
  announce-Closed (tid, true) s h = K.sends _ s h

module _ {Num Event : Type 0} (R : Runtime Num) (T : Trace Num Event) {P : Session Num → Type 0}
    (K : IsClosed P) where
  vars_from-Closed :
      (kvs : List (Text × Value Num)) (s : Session Num) → P s → P (vars_from R T kvs s).0
  unfolding vars_from
  vars_from-Closed [] s h = h
  vars_from-Closed ((k, Value.object sub) ∷ kvs) s h =
      vars_from-Closed kvs (alloc_var sub s).0 (K.allocs sub s h)
  vars_from-Closed ((k, _) ∷ kvs) s h = vars_from-Closed kvs s h

  pub vars_from_map-Closed : (m : Entries Num) (s : Session Num) → P s → P (vars_from_map R T m s).0
  unfolding vars_from_map
  vars_from_map-Closed m s h = vars_from-Closed (sort_entries (pairs m)) s h
