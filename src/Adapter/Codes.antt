-- ===== src/Adapter/Codes.antt =====
-- The two status tables undo one another where they can.
use ojs_conformance.Common.{ℕ, ◌≡◌, refl, ◌⊎◌, inl, inr, arith}
use ojs_conformance.Adapter.{
  Code, internal, unknown, other, grpc_code_to_http_status, http_status_to_grpc_code,
}

-- From a gRPC code to HTTP and back is the same code, but for the codes that have no HTTP status of
-- their own, which become Internal.
pub http_status_to_grpc_code-grpc_code_to_http_status :
    (c : Code)
    → (http_status_to_grpc_code (grpc_code_to_http_status c) ≡ c)
      ⊎ ((grpc_code_to_http_status c ≡ 500)
          × (http_status_to_grpc_code (grpc_code_to_http_status c) ≡ internal))
unfolding http_status_to_grpc_code grpc_code_to_http_status
http_status_to_grpc_code-grpc_code_to_http_status unknown = inr (refl, refl)
http_status_to_grpc_code-grpc_code_to_http_status (other n) = inr (refl, refl)
http_status_to_grpc_code-grpc_code_to_http_status _ = inl refl

-- From an HTTP status of the table to gRPC and back is the same status, but for 201, which becomes
-- 200; a status that is not in the table becomes 500.
pub grpc_code_to_http_status-http_status_to_grpc_code :
    (s : ℕ)
    → (grpc_code_to_http_status (http_status_to_grpc_code s) ≡ s)
      ⊎ ((s ≡ 201) × (grpc_code_to_http_status (http_status_to_grpc_code s) ≡ 200))
      ⊎ ((http_status_to_grpc_code s ≡ unknown)
          × (grpc_code_to_http_status (http_status_to_grpc_code s) ≡ 500))
unfolding http_status_to_grpc_code grpc_code_to_http_status
grpc_code_to_http_status-http_status_to_grpc_code s = ground arith
