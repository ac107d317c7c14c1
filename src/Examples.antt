-- ===== src/Examples.antt =====
-- A runtime over whole numbers, on which the theorems are tried: a float64 is an integer, a decimal is
-- read up to its point, and every regular expression is the text itself.
mod Matchers
mod Reports
mod Paths
mod Certificates
mod Runs
mod Steps
mod Polling
mod Verdicts
mod Servers
mod Traces
mod Clients
mod Suites
use ojs_conformance.Common.{
  ℕ, ◌+◌, ◌-◌, ◌*◌, ◌/◌, Text, text, ℤ, pos, negsuc, Bool, true, false, Option, none, some, ltb_ℤ,
  eq_ℤ, leb, atoi, decimal_ℤ, contains, if◌then◌else◌,
}
use ojs_conformance.Json.{Runtime}
use ojs_conformance.Timing.{Arithmetic}

abbrev sub_ℕ : ℕ → ℕ → ℤ
sub_ℕ a b = if leb b a then pos (a - b) else negsuc (b - a - 1)

abbrev sub_ℤ : ℤ → ℤ → ℤ
sub_ℤ (pos a) (pos b) = sub_ℕ a b
sub_ℤ (pos a) (negsuc b) = pos (a + b + 1)
sub_ℤ (negsuc a) (pos b) = negsuc (a + b)
sub_ℤ (negsuc a) (negsuc b) = sub_ℕ b a

abbrev abs_ℤ : ℤ → ℤ
abs_ℤ (pos a) = pos a
abs_ℤ (negsuc a) = pos (a + 1)

abbrev half_ℤ : ℤ → ℤ
half_ℤ (pos a) = pos (a / 2)
half_ℤ (negsuc a) = negsuc (a / 2)

abbrev float_of : Option ℤ → ℤ × Bool
float_of none = (pos 0, false)
float_of (some z) = (z, true)

abbrev mul_ℤ : ℤ → ℤ → ℤ
mul_ℤ (pos a) (pos b) = pos (a * b)
mul_ℤ (pos a) (negsuc b) = sub_ℕ 0 (a * (b + 1))
mul_ℤ (negsuc a) (pos b) = sub_ℕ 0 ((a + 1) * b)
mul_ℤ (negsuc a) (negsuc b) = pos ((a + 1) * (b + 1))

-- The quotient by a positive divisor, rounded towards zero.
abbrev div_ℤ : ℤ → ℤ → ℤ
div_ℤ (pos a) (pos b) = pos (a / b)
div_ℤ (negsuc a) (pos b) = sub_ℕ 0 ((a + 1) / b)
div_ℤ a (negsuc b) = a

abbrev pub operations : Arithmetic ℤ
operations = record { mul = mul_ℤ; div = div_ℤ; max = λ a b. if ltb_ℤ a b then b else a }

abbrev pub whole : Runtime ℤ
whole = record {
  of_int = λ z. z;
  lt = ltb_ℤ;
  eq = eq_ℤ;
  sub = sub_ℤ;
  abs = abs_ℤ;
  trunc = λ z. z;
  int64_of = λ z. z;
  half = half_ℤ;
  epsilon = pos 0;
  parse_float = λ s. float_of (atoi s);
  format_float = decimal_ℤ;
  format_float32 = decimal_ℤ;
  compile = λ p. some (λ s. contains s p);
}
