-- ===== src/Examples/Paths.antt =====
-- The theorems on paths, headers, levels, routes and status codes at concrete inputs, and tests of
-- the paths of the suites.
use ojs_conformance.Common.{
  ℕ, Text, text, ℤ, pos, List, [], ◌∷◌, ◌++◌, none, some, ◌≡◌, ◌≢◌, refl, arith, All, join,
}
use ojs_conformance.Json.{Raw, Fields, Value, Values, Entries}
use ojs_conformance.JsonPath.{ok, err, out_of_bounds, resolve_json_path}
use ojs_conformance.JsonPath.Split.{IsKey}
use ojs_conformance.JsonPath.Keys.{descend, resolve_json_path-descend}
use ojs_conformance.Assertions.Format.{sprint_v}
use ojs_conformance.Schema.{Assertions, TestCase}
use ojs_conformance.Adapter.{get_checkpoint_or_job, delete_checkpoint_or_cancel, resolve_route}
use ojs_conformance.Adapter.Routes.{resolve_route-ne-checkpoint}
use ojs_conformance.Examples.{whole}

abbrev one_job : Text → ℕ → Value ℤ
one_job id n = Value.object (
    Entries.entry (text "id") (Value.string id)
      (Entries.entry (text "n") (Value.float64 (pos n)) Entries.end))

-- {"job": {"id": "a", "n": 1}, "jobs": [{"id": "a", "n": 1}, {"id": "b", "n": 2}]}
abbrev body : Value ℤ
body = Value.object (
    Entries.entry (text "job") (one_job (text "a") 1) (
      Entries.entry (text "jobs")
        (Value.array
          (Values.cons (one_job (text "a") 1) (Values.cons (one_job (text "b") 2) Values.nil)))
        Entries.end))

index_test : resolve_json_path whole (text "$.jobs[1].id") body ≡ ok (Value.string (text "b"))
unfolding resolve_json_path
index_test = refl

bounds_test : resolve_json_path whole (text "$.jobs[2].id") body ≡ err out_of_bounds
unfolding resolve_json_path
bounds_test = refl

filter_test :
    resolve_json_path whole (text "$.jobs[?(@.id=='b')].n") body ≡ ok (Value.float64 (pos 2))
unfolding resolve_json_path sprint_v
filter_test = refl

wildcard_test :
    resolve_json_path whole (text "$.jobs[*].id") body
    ≡ ok (
        Value.array (
          Values.cons (Value.string (text "a")) (Values.cons (Value.string (text "b")) Values.nil)))
unfolding resolve_json_path
wildcard_test = refl

abbrev job_id : List Text
job_id = text "job" ∷ text "id" ∷ []

job_id-IsKey : All IsKey job_id
job_id-IsKey = (((λ e. ground arith), refl), (((λ e. ground arith), refl), tt))

resolve_json_path-descend_example :
    resolve_json_path whole (text "$." ++ join (text ".") job_id) body ≡ descend job_id body
resolve_json_path-descend_example = resolve_json_path-descend whole job_id body job_id-IsKey

-- {"X-A": "1", "X-B": "regex:2"} as the headers to expect
abbrev with_headers : Assertions ℤ
with_headers = record {
  status = none;
  status_in = [];
  body = none;
  body_absent = [];
  timing_ms = none;
  body_contains = [];
  headers = some (
      Raw.object (
        Fields.field (text "X-A") (Raw.string (text "1"))
          (Fields.field (text "X-B") (Raw.string (text "regex:2")) Fields.end)));
}

abbrev test_case : TestCase ℤ
test_case = record {
  test_id = text "L1-RET-001";
  level = none;
  category = text "retry";
  name = text "retry";
  spec_ref = [];
  setup = none;
  steps = [];
  teardown = none;
  file_path = [];
  level_int = pos 0;
}

resolve_route-ne-checkpoint_example :
    (resolve_route (text "GET") (text "/ojs/v1/jobs/7/checkpoint") ≢ some get_checkpoint_or_job)
    × (resolve_route (text "GET") (text "/ojs/v1/jobs/7/checkpoint")
        ≢ some delete_checkpoint_or_cancel)
resolve_route-ne-checkpoint_example =
    resolve_route-ne-checkpoint (text "GET") (text "/ojs/v1/jobs/7/checkpoint")

abbrev missing : ℕ
missing = 404
