-- ===== src/Examples/Verdicts.antt =====
-- The theorems on the evaluation of assertions.
use ojs_conformance.Common.{
  Text, text, ℤ, pos, true, [], ◌∷◌, ◌++◌, none, some, ◌≡◌, ◌↔◌, arith, any, map, eq_ℤ, join,
  decimal,
}
use ojs_conformance.Json.{Raw, field, end}
use ojs_conformance.Schema.{Assertions}
use ojs_conformance.Evaluate.Status.{one_of, evaluate_status_assertion}
use ojs_conformance.Evaluate.Checks.{status_in_failures}
use ojs_conformance.Evaluate.Codes.{raw_ints, evaluate_status_assertion-listed}
use ojs_conformance.Evaluate.Steps.{evaluate_assertions, grpc_evaluate_assertions}
use ojs_conformance.Evaluate.Agreement.{
  Meets, evaluate_assertions_iff, grpc_evaluate_assertions-evaluate_assertions,
}
use ojs_conformance.Examples.{whole, operations}
use ojs_conformance.Examples.Steps.{codec, config, created, results}

-- The status is 201, the id a number, and there is no error.
abbrev pub wanted : Assertions ℤ
wanted = record {
  status = some (Raw.int (pos 201));
  status_in = [];
  body = some ((text "$.id", Raw.int (pos 7)) ∷ []);
  body_absent = text "$.error" ∷ [];
  headers = none;
  timing_ms = some (record { less_than = some (pos 500); greater_than = none; approximate = none });
  body_contains = text "id" ∷ [];
}

evaluate_assertions_iff_example :
    (evaluate_assertions whole operations codec config results (text "next") wanted created ≡ [])
    ↔ Meets whole operations codec config results wanted created
evaluate_assertions_iff_example =
    evaluate_assertions_iff whole operations codec config results (text "next") wanted created

abbrev no_name : ℤ → Text
no_name z = []

grpc_evaluate_assertions-evaluate_assertions_example :
    (grpc_evaluate_assertions whole operations codec no_name config results
        (text "next")
        wanted
        created
      ≡ [])
    ↔ (evaluate_assertions whole operations codec config results
          (text "next")
          (record wanted { headers = none })
          created
        ≡ [])
grpc_evaluate_assertions-evaluate_assertions_example =
    grpc_evaluate_assertions-evaluate_assertions whole operations codec no_name config results
      (text "next") wanted created

evaluate_status_assertion-listed_example :
    let listed = any (eq_ℤ (pos 409)) (map pos (200 ∷ 409 ∷ [])) ≡ true in
    ((evaluate_status_assertion whole codec no_name
          (Raw.string (one_of ++ join (text ",") (map decimal (200 ∷ 409 ∷ []))))
          (pos 409)
        ≡ none)
      ↔ listed)
    × (((evaluate_status_assertion whole codec no_name
              (Raw.object
                (field (text "$in") (Raw.array (raw_ints whole codec (200 ∷ 409 ∷ []))) end))
              (pos 409)
            ≡ none)
          ↔ listed)
        × ((status_in_failures (text "next") (map pos (200 ∷ 409 ∷ [])) (pos 409) ≡ []) ↔ listed))
evaluate_status_assertion-listed_example =
    evaluate_status_assertion-listed whole codec no_name (text "next") (pos 409) 200 (409 ∷ [])
      (omega arith, (omega arith, tt))
