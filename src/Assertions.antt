-- ===== src/Assertions.antt =====
-- lib/assertions.go: what an assertion answers, and the numeric values of a Go `any`.
-- A Go error is a `Mismatch`: its kind, and the index or the field names that wrap it, without the
-- rest of the wording of the message.
pub mod Patterns
pub mod Format
pub mod Strings
pub mod Match
use ojs_conformance.Common.{
  ℕ, Text, text, ℤ, Bool, true, false, ◌&&◌, not, Option, none, some, eq_ℤ, ◌≡◌, refl,
  if◌then◌else◌,
}
use ojs_conformance.Json.{Runtime, Value}

pub data Mismatch : Type 0 where
  -- the value has another dynamic type than the matcher needs
  wrong_type : Mismatch
  wrong_value : Mismatch
  wrong_length : Mismatch
  -- a field that has to be absent is there, or the other way round
  unexpected missing : Mismatch
  -- the matcher itself is not well formed
  invalid_matcher : Mismatch
  no_alternative : Mismatch
  at_index : ℕ → Mismatch → Mismatch
  at_field : Text → Mismatch → Mismatch
  -- the recursion of the model ended early; no call of `match_assertion` answers this
  out_of_fuel : Mismatch

-- A Go `error` result: `pass` is nil.
pub data Verdict : Type 0 where
  pass : Verdict
  fail : Mismatch → Verdict

abbrev pub passes : Verdict → Bool
passes pass = true
passes (fail e) = false

abbrev pub wrap : (Mismatch → Mismatch) → Verdict → Verdict
wrap f pass = pass
wrap f (fail e) = fail (f e)

-- Goes on with `next` if the verdict is nil.
abbrev pub and_then : Verdict → Verdict → Verdict
and_then pass next = next
and_then (fail e) next = fail e

abbrev pub require : Bool → Mismatch → Verdict
require true e = pass
require false e = fail e

pub passes-and_then : (a b : Verdict) → passes (and_then a b) ≡ (passes a && passes b)
passes-and_then pass b = refl
passes-and_then (fail e) b = refl

pub passes-wrap : (f : Mismatch → Mismatch) (a : Verdict) → passes (wrap f a) ≡ passes a
passes-wrap f pass = refl
passes-wrap f (fail e) = refl

module _ {Num : Type 0} where
  abbrev pub is_null : Value Num → Bool
  is_null Value.null = true
  is_null _ = false

  module _ (R : Runtime Num) where
    unfoldable pub to_float64 : Value Num → Option Num
    to_float64 (Value.float64 n) = some n
    to_float64 (Value.float32 n) = some n
    to_float64 (Value.int z) = some (R.of_int z)
    to_float64 (Value.int64 z) = some (R.of_int z)
    to_float64 (Value.int32 z) = some (R.of_int z)
    to_float64 (Value.number s) = let (n, done) = R.parse_float s in if done then some n else none
    to_float64 _ = none

    -- Equal integers, or floats closer than the constant 1e-9.
    unfoldable pub match_number_assertion : Num → Value Num → Verdict
    unfolding to_float64
    match_number_assertion expected actual = elim (to_float64 actual) [
      | none ↦ fail Mismatch.wrong_type
      | some n ↦
          if R.eq expected (R.trunc expected) && R.eq n (R.trunc n)
          then require (eq_ℤ (R.int64_of expected) (R.int64_of n)) Mismatch.wrong_value
          else require (not (R.lt R.epsilon (R.abs (R.sub expected n)))) Mismatch.wrong_value
    ]

  -- jsonType
  unfoldable pub json_type : Value Num → Text
  json_type (Value.string s) = text "string"
  json_type (Value.float64 n) = text "number"
  json_type (Value.bool b) = text "boolean"
  json_type Value.null = text "null"
  json_type (Value.array vs) = text "array"
  json_type (Value.object es) = text "object"
  json_type (Value.float32 n) = text "float32"
  json_type (Value.int z) = text "int"
  json_type (Value.int64 z) = text "int64"
  json_type (Value.int32 z) = text "int32"
  json_type (Value.number s) = text "json.Number"
