-- ===== src/Examples/Runs.antt =====
-- The theorems on runs of test cases, with a server that answers 200 to every step.
use ojs_conformance.Common.{
  Text, text, ℤ, pos, true, List, [], ◌∷◌, none, some, ◌≡◌, refl, All, str_eq,
}
use ojs_conformance.Schema.{Step, TestCase}
use ojs_conformance.Runner.{
  has_id, Exchange, Executed, collect_group, grpc_collect_group, execute_steps_with_parallel,
}
use ojs_conformance.Runner.Steps.{execute_steps_with_parallel_complete}
use ojs_conformance.Runner.Groups.{AreDistinct, AreSequential}

abbrev answer : Step ℤ → Executed ℤ
answer s = (
  record {
    step_id = s.id;
    status_code = pos 200;
    headers = [];
    body = [];
    duration_ms = pos 3;
    parsed = none;
  },
  [],
)

abbrev server : Exchange ℤ
server = record {
  execute_step = λ stored s. answer s;
  execute_in_group = λ stored group i s. answer s;
}

abbrev step : Text → Text → Step ℤ
step id parallel_with = record {
  id = id;
  action = text "GET";
  path = text "/ojs/v1/health";
  headers = [];
  body = none;
  delay_ms = pos 0;
  duration_ms = pos 0;
  assertions = none;
  parallel_with = parallel_with;
}

-- One after the other, and a pair that runs together.
abbrev in_order : List (Step ℤ)
in_order = step (text "a") [] ∷ step (text "b") [] ∷ []

abbrev one_pair : List (Step ℤ)
one_pair = step (text "a") [] ∷ step (text "b") (text "a") ∷ []

abbrev a_case : TestCase ℤ
a_case = record {
  test_id = text "L0-ENV-001";
  level = none;
  category = text "envelope";
  name = text "envelope";
  spec_ref = [];
  setup = some in_order;
  steps = one_pair;
  teardown = none;
  file_path = [];
  level_int = pos 0;
}

execute_steps_with_parallel_complete_example :
    All
      (λ s.
        has_id s.id (execute_steps_with_parallel server collect_group one_pair []).executed ≡ true)
      one_pair
    × All
        (λ s.
          has_id s.id (execute_steps_with_parallel server grpc_collect_group one_pair []).executed
          ≡ true)
        one_pair
execute_steps_with_parallel_complete_example =
    execute_steps_with_parallel_complete server one_pair []

in_order-AreSequential : AreSequential in_order
in_order-AreSequential = (refl, (refl, tt))

in_order-AreDistinct : AreDistinct in_order
unfolding str_eq
in_order-AreDistinct = ((refl, tt), (tt, tt))

-- Three steps, the last with the id of the first.
abbrev same_id : List (Step ℤ)
same_id = step (text "a") [] ∷ step (text "b") [] ∷ step (text "a") [] ∷ []

-- Two pairs of parallel steps, one behind the other: the HTTP runner executes the last step twice.
abbrev two_pairs : List (Step ℤ)
two_pairs =
    step (text "a") []
    ∷ step (text "b") (text "a")
    ∷ step (text "c") []
    ∷ step (text "d") (text "c")
    ∷ []

two_pairs_test :
    ((execute_steps_with_parallel server collect_group two_pairs []).executed
      ≡ text "a" ∷ text "b" ∷ text "d" ∷ text "c" ∷ text "d" ∷ [])
    × ((execute_steps_with_parallel server grpc_collect_group two_pairs []).executed
        ≡ text "a" ∷ text "b" ∷ text "c" ∷ text "d" ∷ [])
unfolding execute_steps_with_parallel collect_group grpc_collect_group
two_pairs_test = (refl, refl)
