-- ===== src/Adapter.antt =====
-- runner/grpc/adapter.go and the status table of runner/grpc/assertions.go: HTTP actions and paths
-- to gRPC methods, and gRPC status codes to HTTP ones. The names of the methods are constructors; the
-- empty name, which stands for no route, is `none`.
pub mod Routes
pub mod Codes
use ojs_conformance.Common.{
  ℕ, Text, text, Bool, true, false, not, ◌&&◌, List, [], ◌∷◌, Option, none, some, ◌==◌, str_eq,
  has_prefix, has_suffix, if◌then◌else◌,
}

pub data Method : Type 0 where
  manifest health enqueue_batch enqueue get_job cancel_job fetch ack nack heartbeat : Method
  list_queues queue_stats pause_or_resume_queue pause_queue resume_queue : Method
  list_dead_letter retry_dead_letter delete_dead_letter : Method
  list_cron register_cron unregister_cron create_workflow get_workflow cancel_workflow : Method
  save_checkpoint get_checkpoint_or_job delete_checkpoint_or_cancel : Method
  get_checkpoint delete_checkpoint : Method

pub record RouteMapping : Type 0 where
  pub http_action : Text
  pub path_prefix : Text
  pub rpc_method : Method
  pub is_exact : Bool

abbrev exact : Text → Text → Method → RouteMapping
exact a p m = record { http_action = a; path_prefix = p; rpc_method = m; is_exact = true }

abbrev prefix : Text → Text → Method → RouteMapping
prefix a p m = record { http_action = a; path_prefix = p; rpc_method = m; is_exact = false }

-- routeTable
abbrev pub route_table : List RouteMapping
route_table =
    exact (text "GET") (text "/ojs/manifest") manifest
    ∷ exact (text "GET") (text "/ojs/v1/health") health
    ∷ exact (text "POST") (text "/ojs/v1/jobs/batch") enqueue_batch
    ∷ exact (text "POST") (text "/ojs/v1/jobs") enqueue
    ∷ prefix (text "GET") (text "/ojs/v1/jobs/") get_job
    ∷ prefix (text "DELETE") (text "/ojs/v1/jobs/") cancel_job
    ∷ exact (text "POST") (text "/ojs/v1/workers/fetch") fetch
    ∷ exact (text "POST") (text "/ojs/v1/workers/ack") ack
    ∷ exact (text "POST") (text "/ojs/v1/workers/nack") nack
    ∷ exact (text "POST") (text "/ojs/v1/workers/heartbeat") heartbeat
    ∷ exact (text "GET") (text "/ojs/v1/queues") list_queues
    ∷ prefix (text "GET") (text "/ojs/v1/queues/") queue_stats
    ∷ prefix (text "POST") (text "/ojs/v1/queues/") pause_or_resume_queue
    ∷ exact (text "GET") (text "/ojs/v1/dead-letter") list_dead_letter
    ∷ prefix (text "POST") (text "/ojs/v1/dead-letter/") retry_dead_letter
    ∷ prefix (text "DELETE") (text "/ojs/v1/dead-letter/") delete_dead_letter
    ∷ exact (text "GET") (text "/ojs/v1/cron") list_cron
    ∷ exact (text "POST") (text "/ojs/v1/cron") register_cron
    ∷ prefix (text "DELETE") (text "/ojs/v1/cron/") unregister_cron
    ∷ exact (text "POST") (text "/ojs/v1/workflows") create_workflow
    ∷ prefix (text "GET") (text "/ojs/v1/workflows/") get_workflow
    ∷ prefix (text "DELETE") (text "/ojs/v1/workflows/") cancel_workflow
    ∷ prefix (text "PUT") (text "/ojs/v1/jobs/") save_checkpoint
    ∷ prefix (text "GET") (text "/ojs/v1/jobs/") get_checkpoint_or_job
    ∷ prefix (text "DELETE") (text "/ojs/v1/jobs/") delete_checkpoint_or_cancel
    ∷ []

-- The tests of the two loops of ResolveRoute.
abbrev pub matches_exact : Text → Text → RouteMapping → Bool
matches_exact action path r =
    r.is_exact && (str_eq r.http_action action && str_eq r.path_prefix path)

abbrev pub matches_prefix : Text → Text → RouteMapping → Bool
matches_prefix action path r =
    not r.is_exact && (str_eq r.http_action action && has_prefix path r.path_prefix)

-- The method of the first entry that a test accepts.
unfoldable pub first_route : (RouteMapping → Bool) → List RouteMapping → Option Method
first_route p [] = none
first_route p (r ∷ rs) = let rest = first_route p rs in if p r then some r.rpc_method else rest

-- ResolveRoute
unfoldable pub resolve_route : Text → Text → Option Method
unfolding first_route str_eq has_prefix
resolve_route action path = elim (first_route (matches_exact action path) route_table) [
  | some m ↦ some m
  | none ↦ first_route (matches_prefix action path) route_table
]

-- The method names that executeStep makes of the ambiguous ones, by the end of the path.
unfoldable pub disambiguate : Method → Text → Option Method
unfolding has_suffix
disambiguate pause_or_resume_queue path = some (
    if has_suffix path (text "/pause")
    then pause_queue
    else if has_suffix path (text "/resume")
    then resume_queue
    else pause_or_resume_queue)
disambiguate save_checkpoint path =
    if has_suffix path (text "/checkpoint") then some save_checkpoint else none
disambiguate get_checkpoint_or_job path =
    some (if has_suffix path (text "/checkpoint") then get_checkpoint else get_job)
disambiguate delete_checkpoint_or_cancel path =
    some (if has_suffix path (text "/checkpoint") then delete_checkpoint else cancel_job)
disambiguate m path = some m

-- RPCCreatesResource
unfoldable pub rpc_creates_resource : Method → Bool
rpc_creates_resource enqueue = true
rpc_creates_resource enqueue_batch = true
rpc_creates_resource register_cron = true
rpc_creates_resource create_workflow = true
rpc_creates_resource _ = false

-- The gRPC codes that the tables name, and the others.
pub data Code : Type 0 where
  code_ok invalid_argument unauthenticated permission_denied not_found already_exists : Code
  failed_precondition resource_exhausted internal unimplemented unavailable : Code
  deadline_exceeded unknown : Code
  other : ℕ → Code

-- GRPCCodeToHTTPStatus
unfoldable pub grpc_code_to_http_status : Code → ℕ
grpc_code_to_http_status code_ok = 200
grpc_code_to_http_status invalid_argument = 400
grpc_code_to_http_status unauthenticated = 401
grpc_code_to_http_status permission_denied = 403
grpc_code_to_http_status not_found = 404
grpc_code_to_http_status already_exists = 409
grpc_code_to_http_status failed_precondition = 412
grpc_code_to_http_status resource_exhausted = 429
grpc_code_to_http_status internal = 500
grpc_code_to_http_status unimplemented = 501
grpc_code_to_http_status unavailable = 503
grpc_code_to_http_status deadline_exceeded = 504
grpc_code_to_http_status _ = 500

-- httpStatusToGRPCCode
abbrev pub code_table : List (ℕ × Code)
code_table =
    (200, code_ok)
    ∷ (201, code_ok)
    ∷ (400, invalid_argument)
    ∷ (401, unauthenticated)
    ∷ (403, permission_denied)
    ∷ (404, not_found)
    ∷ (409, already_exists)
    ∷ (412, failed_precondition)
    ∷ (429, resource_exhausted)
    ∷ (500, internal)
    ∷ (501, unimplemented)
    ∷ (503, unavailable)
    ∷ (504, deadline_exceeded)
    ∷ []

unfoldable pub find_code : ℕ → List (ℕ × Code) → Code
find_code s [] = unknown
find_code s ((k, c) ∷ m) = if k == s then c else find_code s m

-- HTTPStatusToGRPCCode
unfoldable pub http_status_to_grpc_code : ℕ → Code
unfolding find_code
http_status_to_grpc_code s = find_code s code_table
