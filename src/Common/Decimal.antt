-- ===== src/Common/Decimal.antt =====
-- Numbers written in decimal, as fmt's verb %d and strconv write them, and read back.
use ojs_conformance.Common.Tests.{ltb, if◌then◌else◌, Bool-cases}
use ojs_conformance.Common.Texts.{Text, is_digit}
use ojs_conformance.Common.Ints.{ℤ, pos, negsuc, digits_value, atoi}
use mathlib.Core.Bool.{true}
use Prim.Native.Nat.{◌^◌, ℕ, zero, suc, ◌+◌, ◌/◌, ◌%◌, ◌<◌}
use mathlib.Core.Path.{◌≡◌, refl, ◌∙◌}
use mathlib.Core.Logic.{inl, inr}
use mathlib.Core.List.{[], ◌∷◌}
use mathlib.Core.Option.{some}
use native.Mathlib.Omega.{arith}

-- The digits of `n` in front of `rest`; the fuel is more than the number of digits.
unfoldable pub digits_onto : ℕ → ℕ → Text → Text
digits_onto zero n rest = rest
digits_onto (suc f) n rest =
    let more = digits_onto f (n / 10) ((b'0' + n % 10) ∷ rest) in
    if ltb n 10 then (b'0' + n) ∷ rest else more

unfoldable pub decimal : ℕ → Text
unfolding digits_onto
decimal n = digits_onto (suc n) n []

unfoldable pub decimal_ℤ : ℤ → Text
unfolding decimal
decimal_ℤ (pos n) = decimal n
decimal_ℤ (negsuc n) = b'-' ∷ decimal (suc n)

decimal_lem : (n : ℕ) → decimal n ≡ digits_onto (suc n) n []
unfolding decimal
decimal_lem n = refl

-- Reading the digits of `n` goes on behind them with the value `n`.
digits_value-digits_onto :
    (f n : ℕ) (rest : Text) → n < f → digits_value 0 (digits_onto f n rest) ≡ digits_value n rest
unfolding digits_onto digits_value
digits_value-digits_onto zero n rest h = absurd (omega arith)
digits_value-digits_onto (suc f) n rest h = elim (Bool-cases (ltb n 10)) [
  | inl small ↦ rw small (ground arith)
  | inr large ↦ rw large (digits_value-digits_onto f (n / 10) _ (ground arith) ∙ ground arith)
]

pub digits_value-decimal : (n : ℕ) → digits_value 0 (decimal n) ≡ some n
unfolding decimal
digits_value-decimal n =
    digits_value-digits_onto (suc n) n [] (omega arith) ∙ (unfold digits_value in refl)

-- A number in decimal starts with a digit.
digits_onto-head :
    (f n : ℕ) (rest : Text)
    → n < f
    → (d : ℕ) × (cs : Text) × (digits_onto f n rest ≡ d ∷ cs) × (is_digit d ≡ true)
unfolding digits_onto
digits_onto-head zero n rest h = absurd (omega arith)
digits_onto-head (suc f) n rest h = elim (Bool-cases (ltb n 10)) [
  | inl small ↦ (b'0' + n, rest, rw small, ground arith)
  | inr large ↦ rw large (digits_onto-head f (n / 10) _ (ground arith))
]

atoi-digits :
    (d n : ℕ) (cs : Text)
    → is_digit d ≡ true
    → digits_value 0 (d ∷ cs) ≡ some n
    → n < 2 ^ 63
    → atoi (d ∷ cs) ≡ some (pos n)
unfolding atoi
atoi-digits d n cs digit value h = ground arith

-- strconv.Atoi reads back what was printed, up to the largest int64.
pub atoi-decimal : (n : ℕ) → n < 2 ^ 63 → atoi (decimal n) ≡ some (pos n)
atoi-decimal n h =
    let (d, cs, e, digit) = digits_onto-head (suc n) n [] (omega arith) in
    let same : decimal n ≡ d ∷ cs = decimal_lem n ∙ e in
    rw same (atoi-digits d n cs digit (rw same at (digits_value-decimal n)) h)
