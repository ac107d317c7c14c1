-- ===== src/Common/Ints.antt =====
-- Go's `int` and `int64`: an integer, with the range check of the 64-bit types, and strconv.Atoi.
use Prim.Native.Nat.{◌<◌, ℕ, zero, suc, ◌+◌, ◌*◌, ◌-◌, ◌^◌}
use mathlib.Core.Path.{◌≡◌}
use mathlib.Core.Logic.{◌↔◌}
use mathlib.Core.Bool.{Bool, true, false}
use mathlib.Core.List.{[], ◌∷◌}
use mathlib.Core.Option.{Option, none, some}
use native.Mathlib.Omega.{arith}
use ojs_conformance.Common.Tests.{ltb, ◌==◌, if◌then◌else◌}
use ojs_conformance.Common.Texts.{Text, is_digit}

-- `negsuc n` is -(n + 1).
pub data ℤ : Type 0 where
  pos : ℕ → ℤ
  negsuc : ℕ → ℤ

abbrev pub ltb_ℤ : ℤ → ℤ → Bool
ltb_ℤ (pos a) (pos b) = ltb a b
ltb_ℤ (pos a) (negsuc b) = false
ltb_ℤ (negsuc a) (pos b) = true
ltb_ℤ (negsuc a) (negsuc b) = ltb b a

abbrev pub eq_ℤ : ℤ → ℤ → Bool
eq_ℤ (pos a) (pos b) = a == b
eq_ℤ (pos a) (negsuc b) = false
eq_ℤ (negsuc a) (pos b) = false
eq_ℤ (negsuc a) (negsuc b) = a == b

pub eq_ℤ_iff : (a b : ℤ) → (eq_ℤ a b ≡ true) ↔ (a ≡ b)
eq_ℤ_iff a b = ground arith

-- The range of int64.
unfoldable pub in_int64 : ℤ → Bool
in_int64 (pos n) = ltb n (2 ^ 63)
in_int64 (negsuc n) = ltb n (2 ^ 63)

pub in_int64-pos : (n : ℕ) → n < 2 ^ 63 → in_int64 (pos n) ≡ true
unfolding in_int64
in_int64-pos n h = ground arith

-- The value of a run of digits, from an accumulator; `none` at any other character.
unfoldable pub digits_value : ℕ → Text → Option ℕ
digits_value acc [] = some acc
digits_value acc (c ∷ cs) =
    let rest = digits_value (acc * 10 + (c - b'0')) cs in if is_digit c then rest else none

abbrev negate : ℕ → ℤ
negate zero = pos 0
negate (suc n) = negsuc n

abbrev with_range : (ℕ → ℤ) → Option ℕ → Option ℤ
with_range sign none = none
with_range sign (some n) = if in_int64 (sign n) then some (sign n) else none

-- A sign must be followed by a digit.
unfoldable pub unsigned : (ℕ → ℤ) → Text → Option ℤ
unfolding digits_value in_int64
unsigned sign [] = none
unsigned sign (c ∷ cs) = with_range sign (digits_value 0 (c ∷ cs))

-- strconv.Atoi
unfoldable pub atoi : Text → Option ℤ
unfolding unsigned
atoi [] = none
atoi (c ∷ cs) =
    if c == b'-'
    then unsigned negate cs
    else if c == b'+'
    then unsigned pos cs
    else unsigned pos (c ∷ cs)

-- z + 1 and z - 1
abbrev pub inc : ℤ → ℤ
inc (pos n) = pos (suc n)
inc (negsuc zero) = pos 0
inc (negsuc (suc n)) = negsuc n

abbrev pub dec : ℤ → ℤ
dec (pos zero) = negsuc 0
dec (pos (suc n)) = pos n
dec (negsuc n) = negsuc (suc n)
