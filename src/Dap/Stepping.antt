-- ===== src/Dap/Stepping.antt =====
-- Stepping through a trace (cmd/exec-history-dap/serve.go).
use ojs_conformance.Common.{
  ℕ, zero, suc, ◌≤◌, pos, negsuc, inc, true, List, [], ◌∷◌, Option, none, some, ◌≡◌, ◌∙◌, ap, sym,
  refl, arith, length, get_elem?,
}
use ojs_conformance.Json.{Runtime}
use ojs_conformance.Dap.{Trace}
use ojs_conformance.Dap.Server.{Server, span_at, current_span, stop_at, advance_and_stop}

get_elem?-none : {A : Type 0} (xs : List A) (i : ℕ) → length xs ≤ i → get_elem? xs i ≡ none
get_elem?-none [] i h = refl
get_elem?-none (x ∷ xs) zero h = absurd (omega arith)
get_elem?-none (x ∷ xs) (suc i) h = get_elem?-none xs i (omega arith)

module _ {Num Event : Type 0} (R : Runtime Num) (T : Trace Num Event) where
  -- The server after `n` calls of advanceAndStop.
  abbrev pub advance : ℕ → Server Num Event → Server Num Event
  advance zero s = s
  advance (suc n) s = advance_and_stop R T (advance n s)

  stop_at-fields :
      (o : Option Event) (s : Server Num Event)
      → ((stop_at R T o s).cursor ≡ s.cursor) × ((stop_at R T o s).spans ≡ s.spans)
  unfolding stop_at
  stop_at-fields none s = (refl, refl)
  stop_at-fields (some ev) s = (refl, refl)

  advance_and_stop-fields :
      (s : Server Num Event)
      → ((advance_and_stop R T s).cursor ≡ inc s.cursor)
        × ((advance_and_stop R T s).spans ≡ s.spans)
  unfolding advance_and_stop
  advance_and_stop-fields s =
      stop_at-fields (span_at R T (inc s.cursor) s.spans) (record s { cursor = inc s.cursor })

  advance-fields :
      (s : Server Num Event)
      → s.cursor ≡ negsuc 0
      → (n : ℕ) → ((advance (suc n) s).cursor ≡ pos n) × ((advance (suc n) s).spans ≡ s.spans)
  advance-fields s start zero = let f = advance_and_stop-fields s in (f.0 ∙ ap inc start, f.1)
  advance-fields s start (suc n) =
      let f = advance_and_stop-fields (advance (suc n) s) in
      let before = advance-fields s start n in (f.0 ∙ ap inc before.0, f.1 ∙ before.1)

  stop_at-current_span :
      (o : Option Event) (s : Server Num Event)
      → span_at R T s.cursor s.spans ≡ o
      → current_span R T (stop_at R T o s) ≡ o
  unfolding stop_at current_span
  stop_at-current_span none s e = refl
  stop_at-current_span (some ev) s e = e

  stop_at-terminated :
      (o : Option Event) (s : Server Num Event) → o ≡ none → (stop_at R T o s).terminated ≡ true
  unfolding stop_at
  stop_at-terminated none s e = refl
  stop_at-terminated (some ev) s e = absurd (ground arith)

  -- From a server that was not started yet, the call number n + 1 of advanceAndStop stops on the span n
  -- of the trace, and where there is no such span the server is terminated and stands on none.
  pub advance-current_span :
      (s : Server Num Event)
      → s.cursor ≡ negsuc 0
      → (n : ℕ)
      → (current_span R T (advance (suc n) s) ≡ get_elem? s.spans n)
        × (length s.spans ≤ n → (advance (suc n) s).terminated ≡ true)
  unfolding advance_and_stop
  advance-current_span s start n =
      let t = advance n s in
      let f = advance_and_stop-fields t in
      let later = advance-fields s start n in
      let found : span_at R T (inc t.cursor) t.spans ≡ get_elem? s.spans n =
        ap (λ c. span_at R T c t.spans) (sym f.0 ∙ later.0)
        ∙ ap (λ spans. get_elem? spans n) (sym f.1 ∙ later.1) in
      let moved : Server Num Event = record t { cursor = inc t.cursor } in
      (
        stop_at-current_span (span_at R T (inc t.cursor) t.spans) moved refl ∙ found,
        λ h.
            stop_at-terminated (span_at R T (inc t.cursor) t.spans) moved
              (found ∙ get_elem?-none s.spans n h),
      )
