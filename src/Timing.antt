-- ===== src/Timing.antt =====
-- lib/timing.go: tolerances, thresholds and polling. Durations are nanoseconds. An error keeps the
-- numbers of its message.
pub mod Wait
pub mod Thresholds
use ojs_conformance.Common.{
  ℕ, zero, suc, ◌+◌, ◌/◌, ℤ, pos, negsuc, Bool, Option, none, some, ltb, ltb_ℤ, if◌then◌else◌,
}
use ojs_conformance.Json.{Runtime}

-- The operations of float64 and of package math that only the timing code uses.
pub record Arithmetic (Num : Type 0) : Type 0 where
  pub mul : Num → Num → Num
  pub div : Num → Num → Num
  pub max : Num → Num → Num

pub record TimingConfig (Num : Type 0) : Type 0 where
  pub tolerance_pct : Num
  pub min_tolerance_ms : Num
  pub max_wait_ms : ℤ

pub data TimingError (Num : Type 0) : Type 0 where
  -- expected, tolerance, actual, difference
  not_approximate : Num → Num → Num → Num → TimingError Num
  -- the threshold and the actual duration, in milliseconds
  not_less : ℤ → ℤ → TimingError Num
  not_greater : ℤ → ℤ → TimingError Num

-- Duration.Milliseconds: the quotient is rounded towards zero.
abbrev pub negative : ℕ → ℤ
negative zero = pos 0
negative (suc n) = negsuc n

abbrev pub milliseconds : ℤ → ℤ
milliseconds (pos n) = pos (n / 1000000)
milliseconds (negsuc n) = negative ((n + 1) / 1000000)

module _ {Num : Type 0} (R : Runtime Num) (A : Arithmetic Num) where
  -- DefaultTimingConfig
  unfoldable pub default_timing_config : TimingConfig Num
  default_timing_config = record {
    tolerance_pct = R.of_int (pos 50);
    min_tolerance_ms = R.of_int (pos 100);
    max_wait_ms = pos 30000;
  }

  abbrev pub tolerance : TimingConfig Num → Num → Num
  tolerance tc expected_ms =
      A.max (A.div (A.mul expected_ms tc.tolerance_pct) (R.of_int (pos 100))) tc.min_tolerance_ms

  -- TimingConfig.AssertApproximateMs
  unfoldable pub assert_approximate_ms : TimingConfig Num → Num → Num → Option (TimingError Num)
  assert_approximate_ms tc expected_ms actual_ms =
      let tol = tolerance tc expected_ms in
      let diff = R.abs (R.sub actual_ms expected_ms) in
      if R.lt tol diff then some (not_approximate expected_ms tol actual_ms diff) else none

  -- TimingConfig.AssertApproximateDuration
  unfoldable pub assert_approximate_duration : TimingConfig Num → ℤ → ℤ → Option (TimingError Num)
  assert_approximate_duration tc expected actual =
      let expected_ms = R.of_int (milliseconds expected) in
      let actual_ms = R.of_int (milliseconds actual) in
      let tol = tolerance tc expected_ms in
      let diff = R.abs (R.sub actual_ms expected_ms) in
      if R.lt tol diff then some (not_approximate expected_ms tol actual_ms diff) else none

module _ {Num : Type 0} where
  -- AssertLessThan
  unfoldable pub assert_less_than : ℤ → ℤ → Option (TimingError Num)
  assert_less_than threshold actual =
      if ltb_ℤ actual threshold
      then none
      else some (not_less (milliseconds threshold) (milliseconds actual))

  -- AssertGreaterThan
  unfoldable pub assert_greater_than : ℤ → ℤ → Option (TimingError Num)
  assert_greater_than threshold actual =
      if ltb_ℤ threshold actual
      then none
      else some (not_greater (milliseconds threshold) (milliseconds actual))

-- What the loop of WaitForCondition uses of its surroundings, whose state is `World`: the clock, the
-- sleep, and the check with the error that it returns.
pub record Surroundings (World Error : Type 0) : Type 0 where
  pub now : World → ℕ
  pub sleep : ℕ → World → World
  pub check : World → World × Option Error

pub data Waited (Error : Type 0) : Type 0 where
  -- the check passed
  met : Waited Error
  -- the deadline passed; the last error of the check, if it was called
  not_met : Option Error → Waited Error
  -- the loop of the model ended early
  out_of_fuel : Waited Error

module _ {World Error : Type 0} (S : Surroundings World Error) where
  -- The loop of WaitForCondition, with the last error.
  unfoldable pub wait_loop : ℕ → ℕ → ℕ → Option Error → World → World × Waited Error
  wait_loop zero deadline interval last_err w = (w, out_of_fuel)
  wait_loop (suc fuel) deadline interval last_err w =
      let checked = S.check w in
      let rest = wait_loop fuel deadline interval (checked.1) (S.sleep interval (checked.0)) in
      if ltb (S.now w) deadline
      then elim (checked.1) [ none ↦ (checked.0, met) | some e ↦ rest ]
      else (w, not_met last_err)

  -- WaitForCondition
  unfoldable pub wait_for_condition : ℕ → ℕ → World → World × Waited Error
  unfolding wait_loop
  wait_for_condition timeout interval w =
      wait_loop (suc timeout) (S.now w + timeout) interval none w
