-- ===== src/Examples/Polling.antt =====
-- The theorems on timing, with a check that passes from the time 3.
use ojs_conformance.Common.{
  ℕ, ◌+◌, ◌<◌, ◌≤◌, Text, text, Option, none, some, ◌≡◌, ◌↔◌, ◌⊎◌, refl, arith, leb, if◌then◌else◌,
}
use ojs_conformance.Timing.{Surroundings, met, not_met, wait_for_condition, wait_loop}
use ojs_conformance.Timing.Wait.{Ticks, after, wait_for_condition_total, wait_for_condition_iff}

abbrev surroundings : Surroundings ℕ Text
surroundings = record {
  now = λ w. w;
  sleep = λ d w. d + w;
  check = λ w. (w, if leb 3 w then none else some (text "not yet"));
}

surroundings-Ticks : Ticks surroundings 2
surroundings-Ticks w = omega arith

wait_for_condition_met : (wait_for_condition surroundings 10 2 0).1 ≡ met
unfolding wait_for_condition wait_loop
wait_for_condition_met = refl

wait_for_condition_not_met :
    (wait_for_condition surroundings 3 2 0).1 ≡ not_met (some (text "not yet"))
unfolding wait_for_condition wait_loop
wait_for_condition_not_met = refl

wait_for_condition_total_example :
    let r = wait_for_condition surroundings 10 2 0 in
    (r.1 ≡ met) ⊎ ((e : Option Text) × (r.1 ≡ not_met e) × (0 + 10 ≤ r.0))
wait_for_condition_total_example = wait_for_condition_total surroundings 10 2 surroundings-Ticks 0

wait_for_condition_iff_example : ((wait_for_condition surroundings 10 2 0).1 ≡ met) ↔ (
    (k : ℕ) × (after surroundings 2 k 0 < 0 + 10)
    × ((surroundings.check (after surroundings 2 k 0)).1 ≡ none))
wait_for_condition_iff_example = wait_for_condition_iff surroundings 10 2 surroundings-Ticks 0
