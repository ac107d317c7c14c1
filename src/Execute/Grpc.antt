-- ===== src/Execute/Grpc.antt =====
-- executeStep of runner/grpc/runner.go. CallRPC is the argument `call`, which has the outcome of a
-- call: an error, or the result and the milliseconds that it took.
use ojs_conformance.Common.{
  Text, text, ℤ, pos, negsuc, Bool, [], ◌∷◌, ◌++◌, Option, none, some, ◌&&◌, ltb_ℤ, equal_fold,
  if◌then◌else◌,
}
use ojs_conformance.Json.{Runtime, Entries}
use ojs_conformance.Schema.{Step, StepResult}
use ojs_conformance.Timing.{Arithmetic, TimingConfig}
use ojs_conformance.Runner.{Stored, Executed}
use ojs_conformance.Adapter.{
  Method, Code, code_ok, unknown, resolve_route, disambiguate, grpc_code_to_http_status,
  http_status_to_grpc_code,
}
use ojs_conformance.Evaluate.{Codec, failure}
use ojs_conformance.Evaluate.Templates.{resolve_templates}
use ojs_conformance.Evaluate.Steps.{grpc_evaluate_assertions}
use ojs_conformance.Execute.{blank, is_wait, if_asserted, parse_body}

-- RPCResult (runner/grpc/client.go)
pub record RpcResult : Type 0 where
  pub response_json : Text
  pub grpc_code : Code
  pub grpc_message : Text
  pub http_status_override : ℤ

pub data Called : Type 0 where
  rpc_error : Text → Called
  rpc_result : RpcResult → ℤ → Called

unfoldable pub is_ok : Code → Bool
is_ok code_ok = Bool.true
is_ok _ = Bool.false

-- The status that stands for the code: the override, where the call succeeded.
unfoldable pub http_status : RpcResult → ℤ
unfolding grpc_code_to_http_status is_ok
http_status r =
    if ltb_ℤ (pos 0) r.http_status_override && is_ok r.grpc_code
    then r.http_status_override
    else pos (grpc_code_to_http_status r.grpc_code)

-- HTTPStatusToGRPCCode of an int
abbrev pub grpc_code_of : ℤ → Code
grpc_code_of (pos n) = http_status_to_grpc_code n
grpc_code_of (negsuc n) = unknown

module _ {Num : Type 0} (R : Runtime Num) (A : Arithmetic Num) (C : Codec Num) where
  abbrev pub result_of_rpc : Text → RpcResult → ℤ → StepResult Num
  result_of_rpc id r duration_ms = record {
    step_id = id;
    status_code = http_status r;
    headers = [];
    body = r.response_json;
    duration_ms = duration_ms;
    parsed = parse_body R A C r.response_json;
  }

  -- The result and the failures, from the outcome of the call; `code_string` is Code.String.
  unfoldable pub grpc_conclude :
      (Code → Text) → TimingConfig Num → Stored Num → Step Num → Called → Executed Num
  unfolding http_status grpc_evaluate_assertions http_status_to_grpc_code
  grpc_conclude code_string tc stored step (rpc_error e) =
      (blank step.id, failure step.id [] [] [] (text "gRPC call failed: " ++ e) ∷ [])
  grpc_conclude code_string tc stored step (rpc_result r duration_ms) =
      let sr = result_of_rpc step.id r duration_ms in
      let code_name : ℤ → Text = λ z. code_string (grpc_code_of z) in
      (
        sr,
        if_asserted (λ a. grpc_evaluate_assertions R A C code_name tc stored step.id a sr)
            step.assertions,
      )

  abbrev pub body_of : Stored Num → Option Text → Option (Entries Num)
  body_of stored none = none
  body_of stored (some b) = C.parse_object (resolve_templates R C b stored)

  -- executeStep; the empty name of a method is `none`.
  unfoldable pub grpc_execute_step :
      (Code → Text)
      → TimingConfig Num
      → (Option Method → Text → Option (Entries Num) → Called)
      → Stored Num
      → Step Num
      → Executed Num
  unfolding equal_fold resolve_templates resolve_route disambiguate grpc_conclude
  grpc_execute_step code_string tc call stored step =
      let path = resolve_templates R C step.path stored in
      if is_wait step.action then (blank step.id, []) else elim (resolve_route step.action path) [
        | none ↦ (
          blank step.id,
          failure step.id [] [] []
                (text "Cannot resolve gRPC method for " ++ (step.action ++ (text " " ++ path)))
              ∷ [],
        )
        | some m ↦
            grpc_conclude code_string tc stored step
              (call (disambiguate m path) path (body_of stored step.body))
      ]
