-- ===== src/Client/Targets.antt =====
-- The requests that the paths of jobs, queues, dead letters, cron entries and workflows lead to.
use ojs_conformance.Common.{
  ℕ, Text, text, Bool, true, false, not, List, [], ◌∷◌, ◌++◌, Option, some, ◌==◌, ◌≡◌, ◌∙◌, ap,
  refl, arith, reverse, reverse-append, all, all-reverse, has_suffix, has_prefix, has_prefix-append,
  trim_prefix, drop-length_append, All, Bool-cases, inl, inr, ◌>>=◌,
}
use ojs_conformance.Json.{Runtime, Entries}
use ojs_conformance.Adapter.{resolve_route, disambiguate}
use ojs_conformance.Client.{Protobuf, first_segment, trim_suffix, extract_id_from_path}
use ojs_conformance.Client.Bodies.{string_of, queue_name, dead_letter_id}
use ojs_conformance.Client.Requests.{
  Request, build_request, get_job_request, cancel_job_request, queue_stats_request,
  pause_queue_request, resume_queue_request, retry_dead_letter_request, delete_dead_letter_request,
  unregister_cron_request, get_workflow_request, cancel_workflow_request,
}

abbrev pub no_slash : ℕ → Bool
no_slash c = not (c == b'/')

first_segment-plain : (id : Text) → all no_slash id ≡ true → first_segment id ≡ id
unfolding first_segment
first_segment-plain [] h = refl
first_segment-plain (c ∷ cs) h = ground (arith, first_segment-plain cs)

first_segment-slash :
    (id rest : Text) → all no_slash id ≡ true → first_segment (id ++ b'/' ∷ rest) ≡ id
unfolding first_segment
first_segment-slash [] rest h = refl
first_segment-slash (c ∷ cs) rest h = ground (arith, first_segment-slash cs rest)

has_prefix-all :
    (s p : Text) → all no_slash s ≡ true → has_prefix s p ≡ true → all no_slash p ≡ true
unfolding has_prefix
has_prefix-all s [] h e = refl
has_prefix-all [] (y ∷ ys) h e = ground arith
has_prefix-all (x ∷ xs) (y ∷ ys) h e = ground (arith, has_prefix-all xs ys)

trim_suffix-plain :
    (id p : Text)
    → all no_slash id ≡ true
    → all no_slash (reverse p) ≡ false
    → trim_suffix id p ≡ id
unfolding trim_suffix has_suffix
trim_suffix-plain id p h q = elim (Bool-cases (has_prefix (reverse id) (reverse p))) [
  | inl e ↦ absurd (
      let r = has_prefix-all (reverse id) (reverse p) (all-reverse no_slash id h) e in ground arith)
  | inr e ↦ rw (e, trim_suffix) refl
]

has_suffix-append : (s p : Text) → has_suffix (s ++ p) p ≡ true
unfolding has_suffix
has_suffix-append s p =
    ap (λ t. has_prefix t (reverse p)) (reverse-append s p)
    ∙ has_prefix-append (reverse p) (reverse s)

-- The id behind a prefix, alone and with more of the path behind it.
extract_id-plain :
    (prefix id : Text) → all no_slash id ≡ true → extract_id_from_path (prefix ++ id) prefix ≡ id
unfolding extract_id_from_path trim_prefix
extract_id-plain prefix id h =
    rw (has_prefix-append prefix id, trim_prefix)
      (ap first_segment (drop-length_append prefix id) ∙ first_segment-plain id h)

extract_id-slash :
    (prefix id rest : Text)
    → all no_slash id ≡ true
    → extract_id_from_path (prefix ++ (id ++ b'/' ∷ rest)) prefix ≡ id
unfolding extract_id_from_path trim_prefix
extract_id-slash prefix id rest h =
    rw (has_prefix-append prefix (id ++ b'/' ∷ rest), trim_prefix)
      (ap first_segment (drop-length_append prefix (id ++ b'/' ∷ rest))
        ∙ first_segment-slash id rest h)

resume-ne-pause : (s : Text) → has_suffix (s ++ text "/resume") (text "/pause") ≡ false
unfolding has_suffix has_prefix
resume-ne-pause s =
    ap (λ t. has_prefix t (reverse (text "/pause"))) (reverse-append s (text "/resume"))

-- The name of a queue in a path that ends in one of its actions.
queue_name-slash :
    (id action : Text)
    → all no_slash id ≡ true
    → all no_slash (reverse (b'/' ∷ action)) ≡ false
    → queue_name (text "/ojs/v1/queues/" ++ (id ++ b'/' ∷ action)) (b'/' ∷ action) ≡ id
queue_name-slash id action h q =
    ap (λ t. trim_suffix t (b'/' ∷ action)) (extract_id-slash (text "/ojs/v1/queues/") id action h)
    ∙ trim_suffix-plain id (b'/' ∷ action) h q

dead_letter_id-retry :
    (id : Text)
    → all no_slash id ≡ true
    → trim_suffix
        (dead_letter_id (text "/ojs/v1/dead-letter/" ++ (id ++ text "/retry")))
        (text "/retry")
      ≡ id
dead_letter_id-retry id h =
    ap (λ t. trim_suffix t (text "/retry"))
      (extract_id-slash (text "/ojs/v1/dead-letter/") id (text "retry") h)
    ∙ trim_suffix-plain id (text "/retry") h refl

module _ {Num W : Type 0} (R : Runtime Num) (P : Protobuf Num W) where
  -- The request of a step: its route, the choice between the methods of the route, and what the
  -- function of the method builds.
  unfoldable pub requested : Text → Text → Entries Num → Option (Request Num W)
  unfolding resolve_route disambiguate build_request
  requested action path body = do
    route ← resolve_route action path
    m ← disambiguate route path
    build_request R P m path body

  -- The action and the path of a step on a resource with an id, and the request for it.
  abbrev pub resource_requests : Text → Entries Num → List (Text × Text × Request Num W)
  resource_requests id body =
      (text "GET", text "/ojs/v1/jobs/" ++ id, get_job_request id)
      ∷ (
        text "DELETE",
        text "/ojs/v1/jobs/" ++ id,
        cancel_job_request id (string_of (text "reason") body),
      )
      ∷ (text "GET", text "/ojs/v1/queues/" ++ (id ++ text "/stats"), queue_stats_request id)
      ∷ (text "POST", text "/ojs/v1/queues/" ++ (id ++ text "/pause"), pause_queue_request id)
      ∷ (text "POST", text "/ojs/v1/queues/" ++ (id ++ text "/resume"), resume_queue_request id)
      ∷ (
        text "POST",
        text "/ojs/v1/dead-letter/" ++ (id ++ text "/retry"),
        retry_dead_letter_request id,
      )
      ∷ (text "DELETE", text "/ojs/v1/dead-letter/" ++ id, delete_dead_letter_request id)
      ∷ (text "DELETE", text "/ojs/v1/cron/" ++ id, unregister_cron_request id)
      ∷ (text "GET", text "/ojs/v1/workflows/" ++ id, get_workflow_request id)
      ∷ (text "DELETE", text "/ojs/v1/workflows/" ++ id, cancel_workflow_request id)
      ∷ []

  pause_lem :
      (id : Text) (body : Entries Num)
      → all no_slash id ≡ true
      → requested (text "POST") (text "/ojs/v1/queues/" ++ (id ++ text "/pause")) body
        ≡ some (pause_queue_request id)
  unfolding requested
  pause_lem id body h =
      rw (has_suffix-append (text "/ojs/v1/queues/" ++ id) (text "/pause"), requested, disambiguate)
        (ap (λ t. some (pause_queue_request t)) (queue_name-slash id (text "pause") h refl))

  resume_lem :
      (id : Text) (body : Entries Num)
      → all no_slash id ≡ true
      → requested (text "POST") (text "/ojs/v1/queues/" ++ (id ++ text "/resume")) body
        ≡ some (resume_queue_request id)
  unfolding requested
  resume_lem id body h =
      rw (resume-ne-pause (text "/ojs/v1/queues/" ++ id), requested, disambiguate)
        (rw
          (
            has_suffix-append (text "/ojs/v1/queues/" ++ id) (text "/resume"),
            requested,
            disambiguate,
          )
          (ap (λ t. some (resume_queue_request t)) (queue_name-slash id (text "resume") h refl)))

  -- For an id without a slash, each of the ten kinds of steps on a job, a queue, a dead letter, a
  -- cron entry or a workflow with this id leads to the request for just this id: the route of the
  -- path, the choice between the methods of the route, and the id cut out of the path agree.
  pub requested-resource :
      (id : Text) (body : Entries Num)
      → all no_slash id ≡ true
      → All
          (λ (action, path, request). requested action path body ≡ some request)
          (resource_requests id body)
  unfolding requested
  requested-resource id body h =
      let with_id : (prefix : Text)
          → (f : Text → Request Num W)
          → some (f (extract_id_from_path (prefix ++ id) prefix)) ≡ some (f id) =
        λ prefix f. ap (λ t. some (f t)) (extract_id-plain prefix id h) in
      (
        with_id (text "/ojs/v1/jobs/") get_job_request,
        (
          with_id (text "/ojs/v1/jobs/")
              (λ t. cancel_job_request t (string_of (text "reason") body)),
          (
            ap (λ t. some (queue_stats_request t)) (queue_name-slash id (text "stats") h refl),
            (
              pause_lem id body h,
              (
                resume_lem id body h,
                (
                  ap (λ t. some (retry_dead_letter_request t)) (dead_letter_id-retry id h),
                  (
                    with_id (text "/ojs/v1/dead-letter/") delete_dead_letter_request,
                    (
                      with_id (text "/ojs/v1/cron/") unregister_cron_request,
                      (
                        with_id (text "/ojs/v1/workflows/") get_workflow_request,
                        (with_id (text "/ojs/v1/workflows/") cancel_workflow_request, tt),
                      ),
                    ),
                  ),
                ),
              ),
            ),
          ),
        ),
      )
