-- ===== src/Adapter/Routes.antt =====
-- Which method a request is routed to.
use ojs_conformance.Common.{
  Text, text, Bool, true, false, not, ◌&&◌, List, [], ◌∷◌, ◌++◌, Option, none, some, ◌≡◌, ◌≢◌, refl,
  all, drop, arith,
}
use ojs_conformance.Adapter.{
  Method, get_job, cancel_job, get_checkpoint_or_job, delete_checkpoint_or_cancel, RouteMapping,
  route_table, first_route, matches_exact, matches_prefix, resolve_route,
}

-- A set of methods holds the method that was found.
unfoldable pub lands : (Method → Bool) → Option Method → Bool
lands f none = false
lands f (some m) = f m

first_route-lands :
    (f : Method → Bool)
    → (p : RouteMapping → Bool) → (rs : List RouteMapping)
    → all (λ r. not (f r.rpc_method && p r)) rs ≡ true
    → lands f (first_route p rs) ≡ false
unfolding lands first_route
first_route-lands f p [] e = refl
first_route-lands f p (r ∷ rs) e = let ih = first_route-lands f p rs in ground arith

first_route-shadow :
    (f : Method → Bool)
    → (p : RouteMapping → Bool) → (r : RouteMapping) → (rs : List RouteMapping)
    → f r.rpc_method ≡ false
    → (p r ≡ false → lands f (first_route p rs) ≡ false)
    → lands f (first_route p (r ∷ rs)) ≡ false
unfolding lands first_route
first_route-shadow f p r rs e next = ground arith

unfoldable is_get_checkpoint : Method → Bool
is_get_checkpoint get_checkpoint_or_job = true
is_get_checkpoint _ = false

unfoldable is_delete_checkpoint : Method → Bool
is_delete_checkpoint delete_checkpoint_or_cancel = true
is_delete_checkpoint _ = false

-- Every GET below /ojs/v1/jobs/ is routed to GetJob, and every DELETE to CancelJob, whatever the rest
-- of the path is.
pub resolve_route-jobs :
    (rest : Text)
    → (resolve_route (text "GET") (text "/ojs/v1/jobs/" ++ rest) ≡ some get_job)
      × (resolve_route (text "DELETE") (text "/ojs/v1/jobs/" ++ rest) ≡ some cancel_job)
unfolding resolve_route
resolve_route-jobs rest = (refl, refl)

abbrev get_job_route : RouteMapping
get_job_route = record {
  http_action = text "GET";
  path_prefix = text "/ojs/v1/jobs/";
  rpc_method = get_job;
  is_exact = false;
}

abbrev cancel_job_route : RouteMapping
cancel_job_route = record {
  http_action = text "DELETE";
  path_prefix = text "/ojs/v1/jobs/";
  rpc_method = cancel_job;
  is_exact = false;
}

get_checkpoint_or_job-lands :
    (action path : Text)
    → lands is_get_checkpoint (first_route (matches_prefix action path) route_table) ≡ false
unfolding first_route is_get_checkpoint lands
get_checkpoint_or_job-lands action path =
    first_route-shadow is_get_checkpoint (matches_prefix action path) get_job_route
      (drop 5 route_table) refl
      λ e.
        first_route-lands is_get_checkpoint (matches_prefix action path) (drop 5 route_table)
          (rw (e) refl)

delete_checkpoint_or_cancel-lands :
    (action path : Text)
    → lands is_delete_checkpoint (first_route (matches_prefix action path) route_table) ≡ false
unfolding first_route is_delete_checkpoint lands
delete_checkpoint_or_cancel-lands action path =
    first_route-shadow is_delete_checkpoint (matches_prefix action path) get_job_route
      (drop 5 route_table) refl
      λ _.
        first_route-shadow is_delete_checkpoint (matches_prefix action path) cancel_job_route
          (drop 6 route_table) refl
          λ e.
            first_route-lands is_delete_checkpoint (matches_prefix action path) (drop 6 route_table)
              (rw (e) refl)

lands-elim :
    (f : Method → Bool)
    → (o o' : Option Method) → lands f o ≡ false
    → lands f o' ≡ false
    → lands f (elim o [ some m ↦ some m | none ↦ o' ]) ≡ false
lands-elim f none o' e e' = e'
lands-elim f (some m) o' e e' = e

resolve_route-lands :
    (f : Method → Bool)
    → (action path : Text)
    → all (λ r. not (f r.rpc_method && matches_exact action path r)) route_table ≡ true
    → lands f (first_route (matches_prefix action path) route_table) ≡ false
    → lands f (resolve_route action path) ≡ false
unfolding resolve_route
resolve_route-lands f action path e e' =
    lands-elim f (first_route (matches_exact action path) route_table) _
      (first_route-lands f (matches_exact action path) route_table e) e'

lands-some :
    (f : Method → Bool)
    → (o : Option Method) → (m : Method) → lands f o ≡ false
    → f m ≡ true
    → o ≢ some m
unfolding lands
lands-some f o m e e' q = ground arith

-- The methods behind ResolveRoute that tell checkpoints from jobs are never found.
pub resolve_route-ne-checkpoint :
    (action path : Text)
    → (resolve_route action path ≢ some get_checkpoint_or_job)
      × (resolve_route action path ≢ some delete_checkpoint_or_cancel)
unfolding is_get_checkpoint is_delete_checkpoint
resolve_route-ne-checkpoint action path = (
  lands-some is_get_checkpoint (resolve_route action path) get_checkpoint_or_job
      (resolve_route-lands is_get_checkpoint action path refl
        (get_checkpoint_or_job-lands action path))
      refl,
  lands-some is_delete_checkpoint (resolve_route action path) delete_checkpoint_or_cancel
      (resolve_route-lands is_delete_checkpoint action path refl
        (delete_checkpoint_or_cancel-lands action path))
      refl,
)
