-- ===== src/Evaluate/Steps.antt =====
-- evaluateAssertions of runner/http/runner.go and of runner/grpc/runner.go.
use ojs_conformance.Common.{Text, text, ℤ, List, [], ◌++◌}
use ojs_conformance.Json.{Runtime}
use ojs_conformance.Schema.{Assertions, StepResult, Failure}
use ojs_conformance.Schema.Headers.{parsed_header_matchers}
use ojs_conformance.Timing.{Arithmetic, TimingConfig}
use ojs_conformance.Runner.{Stored}
use ojs_conformance.Evaluate.{Codec, parsed_value}
use ojs_conformance.Evaluate.Checks.{
  status_failures, status_in_failures, header_failures, timing_failures, body_contains_failures,
}
use ojs_conformance.Evaluate.Body.{body_failures, body_absent_failures}

module _ {Num : Type 0} (R : Runtime Num) (A : Arithmetic Num) (C : Codec Num) where
  -- evaluateAssertions of the HTTP runner, of the step with the id
  unfoldable pub evaluate_assertions :
      TimingConfig Num → Stored Num → Text → Assertions Num → StepResult Num → List Failure
  unfolding status_failures status_in_failures body_failures body_absent_failures
      parsed_header_matchers header_failures timing_failures body_contains_failures
  evaluate_assertions tc stored id a sr =
      status_failures R A C (λ z. []) id a.status sr.status_code
      ++ (status_in_failures id a.status_in sr.status_code
          ++ (body_failures R C stored id sr a.body
              ++ (body_absent_failures R C id (parsed_value sr) a.body_absent
                  ++ (header_failures R A C id (parsed_header_matchers a) sr.headers
                      ++ (timing_failures R A C tc id sr.duration_ms a.timing_ms
                          ++ body_contains_failures C.quote id sr.body a.body_contains)))))

  -- The end of the messages on a status in the gRPC runner.
  abbrev pub code_suffix : (ℤ → Text) → ℤ → Text
  code_suffix code_name z = text " (gRPC code: " ++ (code_name z ++ text ")")

  -- evaluateAssertions of the gRPC runner; `code_name` is Code.String of HTTPStatusToGRPCCode.
  unfoldable pub grpc_evaluate_assertions :
      (ℤ → Text)
      → TimingConfig Num
      → Stored Num
      → Text
      → Assertions Num
      → StepResult Num
      → List Failure
  unfolding status_failures status_in_failures body_failures body_absent_failures timing_failures
      body_contains_failures
  grpc_evaluate_assertions code_name tc stored id a sr =
      status_failures R A C (code_suffix code_name) id a.status sr.status_code
      ++ (status_in_failures id a.status_in sr.status_code
          ++ (body_failures R C stored id sr a.body
              ++ (body_absent_failures R C id (parsed_value sr) a.body_absent
                  ++ (timing_failures R A C tc id sr.duration_ms a.timing_ms
                      ++ body_contains_failures C.quote id sr.body a.body_contains))))
