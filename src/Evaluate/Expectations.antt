-- ===== src/Evaluate/Expectations.antt =====
-- When evaluateAssertions (runner/http/runner.go, runner/grpc/runner.go) reports nothing: what the
-- assertions on the status, the headers, the time and the raw body ask of a result.
use ojs_conformance.Common.{
  Text, ℤ, Bool, true, false, not, List, [], ◌∷◌, Option, none, some, ◌≡◌, ◌↔◌, ◌⊎◌, inl, inr, refl,
  arith, any, All, ++-nil_iff, eq_ℤ, ltb_ℤ, contains, Option-cases,
}
use ojs_conformance.Json.{Runtime, Raw}
use ojs_conformance.Schema.{TimingAssertion, Failure}
use ojs_conformance.Schema.Headers.{HeaderMatcher}
use ojs_conformance.Timing.{Arithmetic, TimingConfig, assert_approximate_ms}
use ojs_conformance.Evaluate.{Codec}
use ojs_conformance.Evaluate.Status.{evaluate_status_assertion}
use ojs_conformance.Evaluate.Checks.{
  failing, status_failures, status_in_failures, header_matches, header_get, header_failures,
  less_failures, greater_failures, approximate_failures, timing_failures, body_contains_failures,
}

-- The predicate holds of the value, if there is one.
abbrev pub Each {ℓ} : {A : Type ℓ} → (A → Type 0) → Option A → Type 0
Each P none = Unit
Each P (some a) = P a

pub failing_iff : (b : Bool) (f : Failure) → (failing (not b) f ≡ []) ↔ (b ≡ true)
failing_iff b f = ground arith

pub failing-found_iff : (b : Bool) (f : Failure) → (failing b f ≡ []) ↔ (b ≡ false)
failing-found_iff b f = ground arith

pub body_contains_failures_iff :
    (quote : Text → Text) (id body : Text) (substrs : List Text)
    → (body_contains_failures quote id body substrs ≡ [])
      ↔ All (λ s. contains body s ≡ true) substrs
unfolding body_contains_failures
body_contains_failures_iff quote id body [] = ((λ e. tt), (λ t. refl))
body_contains_failures_iff quote id body (s ∷ substrs) =
    ++-nil_iff (failing_iff (contains body s) _) (body_contains_failures_iff quote id body substrs)

pub status_in_failures_iff :
    (id : Text) (zs : List ℤ) (actual : ℤ)
    → (status_in_failures id zs actual ≡ []) ↔ ((zs ≡ []) ⊎ (any (eq_ℤ actual) zs ≡ true))
unfolding status_in_failures
status_in_failures_iff id [] actual = ((λ e. inl refl), (λ t. refl))
status_in_failures_iff id (z ∷ zs) actual =
    let i = failing_iff (any (eq_ℤ actual) (z ∷ zs)) _ in
    ((λ e. inr (i.0 e)), elim [ inl e ↦ absurd (ground arith) | inr e ↦ i.1 e ])

module _ {Num : Type 0} (R : Runtime Num) (A : Arithmetic Num) (C : Codec Num) where
  pub status_failures_iff :
      (suffix : ℤ → Text) (id : Text) (status : Option (Raw Num)) (actual : ℤ)
      → (status_failures R A C suffix id status actual ≡ [])
        ↔ Each (λ raw. evaluate_status_assertion R C suffix raw actual ≡ none) status
  unfolding status_failures
  status_failures_iff suffix id none actual = ((λ e. tt), (λ t. refl))
  status_failures_iff suffix id (some raw) actual =
      elim (Option-cases (evaluate_status_assertion R C suffix raw actual)) [
        | inl e ↦ rw (e, status_failures) ((λ x. refl), (λ x. refl))
        | inr (m, e) ↦
            rw (e, status_failures) ((λ x. absurd (ground arith)), (λ x. absurd (ground arith)))
      ]

  -- The value of the header is as wanted.
  abbrev pub HeaderMeets : List (Text × Text) → Text × HeaderMatcher → Type 0
  HeaderMeets headers (key, hm) = header_matches R A C hm (header_get R A C key headers) ≡ true

  pub header_failures_iff :
      (id : Text) (hms : List (Text × HeaderMatcher)) (headers : List (Text × Text))
      → (header_failures R A C id hms headers ≡ []) ↔ All (HeaderMeets headers) hms
  unfolding header_failures
  header_failures_iff id [] headers = ((λ e. tt), (λ t. refl))
  header_failures_iff id ((key, hm) ∷ hms) headers =
      ++-nil_iff (failing_iff (header_matches R A C hm (header_get R A C key headers)) _)
        (header_failures_iff id hms headers)

  -- The time is below and above the bounds, and close to the expected one.
  abbrev pub TimingMeets : TimingConfig Num → ℤ → TimingAssertion → Type 0
  TimingMeets tc actual t =
      Each (λ limit. ltb_ℤ actual limit ≡ true) t.less_than
      × (Each (λ limit. ltb_ℤ limit actual ≡ true) t.greater_than
          × Each (λ e. assert_approximate_ms R A tc (R.of_int e) (R.of_int actual) ≡ none)
              t.approximate)

  approximate_failures_iff :
      (tc : TimingConfig Num) (id : Text) (actual : ℤ) (o : Option ℤ)
      → (approximate_failures R A C tc id actual o ≡ [])
        ↔ Each (λ e. assert_approximate_ms R A tc (R.of_int e) (R.of_int actual) ≡ none) o
  unfolding approximate_failures
  approximate_failures_iff tc id actual none = ((λ e. tt), (λ t. refl))
  approximate_failures_iff tc id actual (some expected) =
      elim (Option-cases (assert_approximate_ms R A tc (R.of_int expected) (R.of_int actual))) [
        | inl e ↦ rw (e, approximate_failures) ((λ x. refl), (λ x. refl))
        | inr (m, e) ↦
            rw (e, approximate_failures)
              ((λ x. absurd (ground arith)), (λ x. absurd (ground arith)))
      ]

  less_failures_iff :
      (id : Text) (actual : ℤ) (o : Option ℤ)
      → (less_failures R A C id actual o ≡ []) ↔ Each (λ limit. ltb_ℤ actual limit ≡ true) o
  less_failures_iff id actual none = ((λ e. tt), (λ t. refl))
  less_failures_iff id actual (some limit) = failing_iff (ltb_ℤ actual limit) _

  greater_failures_iff :
      (id : Text) (actual : ℤ) (o : Option ℤ)
      → (greater_failures R A C id actual o ≡ []) ↔ Each (λ limit. ltb_ℤ limit actual ≡ true) o
  greater_failures_iff id actual none = ((λ e. tt), (λ t. refl))
  greater_failures_iff id actual (some limit) = failing_iff (ltb_ℤ limit actual) _

  pub timing_failures_iff :
      (tc : TimingConfig Num) (id : Text) (actual : ℤ) (o : Option TimingAssertion)
      → (timing_failures R A C tc id actual o ≡ []) ↔ Each (TimingMeets tc actual) o
  unfolding timing_failures
  timing_failures_iff tc id actual none = ((λ e. tt), (λ t. refl))
  timing_failures_iff tc id actual (some t) = ++-nil_iff (less_failures_iff id actual t.less_than) (
      ++-nil_iff (greater_failures_iff id actual t.greater_than)
        (approximate_failures_iff tc id actual t.approximate))
