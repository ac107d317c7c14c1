-- ===== src/Timing/Thresholds.antt =====
-- The thresholds of lib/timing.go against each other.
use ojs_conformance.Common.{
  ℤ, Bool, ◌≡◌, ◌↔◌, none, some, true, false, arith, refl, sym, ltb_ℤ, if◌then◌else◌, Bool-cases,
  inl, inr,
}
use ojs_conformance.Timing.{assert_less_than, assert_greater_than, TimingError}

-- The order of the integers.
ltb_ℤ_antisym : (a b : ℤ) → ltb_ℤ a b ≡ true → ¬ (ltb_ℤ b a ≡ true)
ltb_ℤ_antisym a b h k = ground arith

ltb_ℤ_trichotomy : (a b : ℤ) → ltb_ℤ a b ≡ false → ltb_ℤ b a ≡ false → a ≡ b
ltb_ℤ_trichotomy a b h k = ground arith

ltb_ℤ_irrefl : (a b : ℤ) → a ≡ b → ¬ (ltb_ℤ a b ≡ true)
ltb_ℤ_irrefl a b e h = ground arith

if-none : {E : Type 0} (b : Bool) (e : E) → ((if b then none else some e) ≡ none) ↔ (b ≡ true)
if-none true e = ((λ x. refl), (λ x. refl))
if-none false e = ((λ x. ground arith), (λ x. ground arith))

-- A duration is never below and above the same threshold, and it is neither exactly when it is equal
-- to it.
pub assert_less_than-assert_greater_than :
    {Num : Type 0} (threshold actual : ℤ)
    → let below = assert_less_than {Num = Num} threshold actual ≡ none in
      let above = assert_greater_than {Num = Num} threshold actual ≡ none in
      (¬ (below × above)) × (((¬ below) × (¬ above)) ↔ (actual ≡ threshold))
unfolding assert_less_than assert_greater_than
assert_less_than-assert_greater_than {Num} threshold actual =
    let b = if-none {E = TimingError Num} (ltb_ℤ actual threshold) _ in
    let a = if-none {E = TimingError Num} (ltb_ℤ threshold actual) _ in
    (
      (λ (x, y). ltb_ℤ_antisym actual threshold (b.0 x) (a.0 y)),
      (
        (λ (x, y). elim (Bool-cases (ltb_ℤ actual threshold)) [
          | inl e ↦ absurd (x (b.1 e))
          | inr e ↦ elim (Bool-cases (ltb_ℤ threshold actual)) [
            | inl f ↦ absurd (y (a.1 f))
            | inr f ↦ ltb_ℤ_trichotomy actual threshold e f
          ]
        ]),
        (λ e. (
          (λ x. ltb_ℤ_irrefl actual threshold e (b.0 x)),
          (λ y. ltb_ℤ_irrefl threshold actual (sym e) (a.0 y)),
        )),
      ),
    )
