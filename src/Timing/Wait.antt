-- ===== src/Timing/Wait.antt =====
-- WaitForCondition of lib/timing.go: when it returns, and when the check has passed.
use ojs_conformance.Common.{
  ℕ, zero, suc, ◌+◌, ◌<◌, ◌≤◌, ◌≡◌, ◌↔◌, ◌⊎◌, inl, inr, refl, arith, Option, none, true, false, ltb,
  Bool-cases, Option-cases,
}
use ojs_conformance.Timing.{Surroundings, met, not_met, wait_loop, wait_for_condition}

-- Time passes in every round.
abbrev pub Ticks : {World Error : Type 0} → Surroundings World Error → ℕ → Type 0
Ticks {World} S interval = (w : World) → S.now w < S.now (S.sleep interval (S.check w).0)

-- A round spends fuel, and at least as much time.
spend : {a b d : ℕ} (f : ℕ) → a < b → d ≤ a + suc f → d ≤ b + f
spend f tick h = omega arith

module _ {World Error : Type 0} (S : Surroundings World Error) where
  -- The state after `k` rounds.
  abbrev pub after : ℕ → ℕ → World → World
  after interval zero w = w
  after interval (suc k) w = after interval k (S.sleep interval (S.check w).0)

  now-after :
      (interval : ℕ)
      → Ticks S interval
      → (k : ℕ) (w : World) → S.now w + k ≤ S.now (after interval k w)
  now-after interval ticks zero w = omega arith
  now-after interval ticks (suc k) w =
      let next = S.sleep interval (S.check w).0 in
      omega (arith, ticks w, now-after interval ticks k next)

  wait_loop-met :
      (interval : ℕ)
      → Ticks S interval
      → (fuel deadline : ℕ) (last_err : Option Error) (k : ℕ) (w : World) → k < fuel
      → S.now (after interval k w) < deadline
      → (S.check (after interval k w)).1 ≡ none
      → (wait_loop S fuel deadline interval last_err w).1 ≡ met
  unfolding wait_loop
  wait_loop-met interval ticks zero deadline last_err k w h early passed = absurd (omega arith)
  wait_loop-met interval ticks (suc fuel) deadline last_err zero w h early passed =
      let inside : ltb (S.now w) deadline ≡ true = ground arith in
      rw (inside, passed, wait_loop) refl
  wait_loop-met interval ticks (suc fuel) deadline last_err (suc k) w h early passed =
      let next = S.sleep interval (S.check w).0 in
      let inside : ltb (S.now w) deadline ≡ true =
        ground (arith, ticks w, now-after interval ticks k next) in
      elim (Option-cases (S.check w).1) [
        | inl p ↦ rw (inside, p, wait_loop) refl
        | inr (x, p) ↦
            rw (inside, p, wait_loop)
              (wait_loop-met interval ticks fuel deadline (S.check w).1 k next (omega arith) early
                passed)
      ]

  met-wait_loop :
      (interval fuel deadline : ℕ) (last_err : Option Error) (w : World)
      → (wait_loop S fuel deadline interval last_err w).1 ≡ met
      → (k : ℕ) × (S.now (after interval k w) < deadline)
        × ((S.check (after interval k w)).1 ≡ none)
  unfolding wait_loop
  met-wait_loop interval zero deadline last_err w h = absurd (ground arith)
  met-wait_loop interval (suc fuel) deadline last_err w h =
      let next = S.sleep interval (S.check w).0 in
      elim (Bool-cases (ltb (S.now w) deadline)) [
        | inr e ↦ let h' : not_met last_err ≡ met = rw (e, wait_loop) at h in absurd (ground arith)
        | inl e ↦ elim (Option-cases (S.check w).1) [
          | inl p ↦ (0, ground arith, p)
          | inr (x, p) ↦
              let later =
                met-wait_loop interval fuel deadline (S.check w).1 next
                  (rw (e, p, wait_loop) at h) in
              (suc later.0, later.1, later.2)
        ]
      ]

  wait_loop_total :
      (interval : ℕ)
      → Ticks S interval
      → (fuel deadline : ℕ) (last_err : Option Error) (w : World) → deadline ≤ S.now w + fuel
      → let r = wait_loop S (suc fuel) deadline interval last_err w in
        (r.1 ≡ met) ⊎ ((e : Option Error) × (r.1 ≡ not_met e) × (deadline ≤ S.now (r.0)))
  unfolding wait_loop
  wait_loop_total interval ticks zero deadline last_err w h =
      let over : ltb (S.now w) deadline ≡ false = ground arith in
      rw (over, wait_loop) (inr (last_err, refl, omega arith))
  wait_loop_total interval ticks (suc fuel) deadline last_err w h =
      let next = S.sleep interval (S.check w).0 in
      elim (Bool-cases (ltb (S.now w) deadline)) [
        | inr e ↦ rw (e, wait_loop) (inr (last_err, refl, ground arith))
        | inl e ↦ elim (Option-cases (S.check w).1) [
          | inl p ↦ rw (e, p, wait_loop) (inl refl)
          | inr (x, p) ↦
              rw (e, p, wait_loop)
                (wait_loop_total interval ticks fuel deadline (S.check w).1 next
                  (spend fuel (ticks w) h))
        ]
      ]

  -- Where time passes in every round, WaitForCondition returns: nil, or an error after the deadline.
  pub wait_for_condition_total :
      (timeout interval : ℕ)
      → Ticks S interval
      → (w : World)
      → let r = wait_for_condition S timeout interval w in
        (r.1 ≡ met) ⊎ ((e : Option Error) × (r.1 ≡ not_met e) × (S.now w + timeout ≤ S.now (r.0)))
  unfolding wait_for_condition
  wait_for_condition_total timeout interval ticks w =
      wait_loop_total interval ticks timeout (S.now w + timeout) none w (omega arith)

  -- Where time passes in every round, that is, where the clock has moved on after each check and sleep
  -- from any state, WaitForCondition returns nil exactly when some round of the polling begins before the
  -- deadline and its check passes.
  pub wait_for_condition_iff :
      (timeout interval : ℕ)
      → Ticks S interval
      → (w : World)
      → ((wait_for_condition S timeout interval w).1 ≡ met) ↔ (
          (k : ℕ) × (S.now (after interval k w) < S.now w + timeout)
          × ((S.check (after interval k w)).1 ≡ none))
  unfolding wait_for_condition
  wait_for_condition_iff timeout interval ticks w = (
    met-wait_loop interval (suc timeout) (S.now w + timeout) none w,
    λ (k, early, passed).
        wait_loop-met interval ticks (suc timeout) (S.now w + timeout) none k w
          (omega (arith, now-after interval ticks k w)) early passed,
  )
