-- ===== src/Evaluate/Agreement.antt =====
-- What evaluateAssertions of the two runners accepts, as a whole.
use ojs_conformance.Common.{
  Text, ℤ, true, false, [], Option, none, some, ◌≡◌, ◌↔◌, ◌⊎◌, any, All, ++-nil_iff, eq_ℤ, contains,
}
use ojs_conformance.Json.{Runtime}
use ojs_conformance.JsonPath.{resolve_json_path}
use ojs_conformance.Schema.{Assertions, StepResult}
use ojs_conformance.Schema.Headers.{parsed_header_matchers}
use ojs_conformance.Timing.{Arithmetic, TimingConfig}
use ojs_conformance.Runner.{Stored}
use ojs_conformance.Evaluate.{Codec, parsed_value}
use ojs_conformance.Evaluate.Codes.{evaluate_status_assertion-suffix}
use ojs_conformance.Evaluate.Status.{evaluate_status_assertion}
use ojs_conformance.Evaluate.Body.{is_found}
use ojs_conformance.Evaluate.Steps.{evaluate_assertions, grpc_evaluate_assertions, code_suffix}
use ojs_conformance.Evaluate.Expectations.{
  Each, status_failures_iff, status_in_failures_iff, HeaderMeets, header_failures_iff, TimingMeets,
  timing_failures_iff, body_contains_failures_iff,
}
use ojs_conformance.Evaluate.Paths.{BodyMeets, body_failures_iff, body_absent_failures_iff}

Each-map :
    {B : Type 0} {P Q : B → Type 0} (o : Option B) → ((b : B) → P b → Q b) → Each P o → Each Q o
Each-map none f e = tt
Each-map (some b) f e = f b e

module _ {Num : Type 0} (R : Runtime Num) (A : Arithmetic Num) (C : Codec Num) where
  -- What the runner asks of the result of a step by its assertions.
  pub record Meets (tc : TimingConfig Num) (stored : Stored Num) (a : Assertions Num)
      (sr : StepResult Num) : Type 0 where
    pub status :
        Each (λ raw. evaluate_status_assertion R C (λ z. []) raw sr.status_code ≡ none) a.status
    pub status_in : (a.status_in ≡ []) ⊎ (any (eq_ℤ sr.status_code) a.status_in ≡ true)
    pub body : Each (BodyMeets R C stored sr) a.body
    pub body_absent :
        All (λ p. is_found (resolve_json_path R p (parsed_value sr)) ≡ false) a.body_absent
    pub headers : All (HeaderMeets R A C sr.headers) (parsed_header_matchers a)
    pub timing_ms : Each (TimingMeets R A C tc sr.duration_ms) a.timing_ms
    pub body_contains : All (λ s. contains sr.body s ≡ true) a.body_contains

  -- The HTTP runner reports no failure exactly when the result meets every assertion of the step that the
  -- runner evaluates: those on the status, the time, the headers, the raw body and the fields that shall
  -- be absent, the alternatives of `$or` if it is an array, and, if the response is a JSON object, the
  -- entries of the body but those whose key begins with `$` and not with `$.`. Where the response is no
  -- JSON object, no entry of the body but `$or` is evaluated.
  pub evaluate_assertions_iff :
      (tc : TimingConfig Num) (stored : Stored Num) (id : Text) (a : Assertions Num)
      → (sr : StepResult Num)
      → (evaluate_assertions R A C tc stored id a sr ≡ []) ↔ Meets tc stored a sr
  unfolding evaluate_assertions
  evaluate_assertions_iff tc stored id a sr =
      let i = ++-nil_iff (status_failures_iff R A C (λ z. []) id a.status sr.status_code) (
        ++-nil_iff (status_in_failures_iff id a.status_in sr.status_code) (
          ++-nil_iff (body_failures_iff R C stored id sr a.body) (
            ++-nil_iff (body_absent_failures_iff R C id (parsed_value sr) a.body_absent) (
              ++-nil_iff (header_failures_iff R A C id (parsed_header_matchers a) sr.headers) (
                ++-nil_iff (timing_failures_iff R A C tc id sr.duration_ms a.timing_ms)
                  (body_contains_failures_iff C.quote id sr.body a.body_contains)))))) in
      (
        λ e.
            let (s, (si, (b, (ba, (h, (t, bc)))))) = i.0 e in
            record {
              status = s;
              status_in = si;
              body = b;
              body_absent = ba;
              headers = h;
              timing_ms = t;
              body_contains = bc;
            },
        λ m. i.1 (
          m.status,
          (m.status_in, (m.body, (m.body_absent, (m.headers, (m.timing_ms, m.body_contains))))),
        ),
      )

  pub grpc_evaluate_assertions_iff :
      (code_name : ℤ → Text) (tc : TimingConfig Num) (stored : Stored Num) (id : Text)
      → (a : Assertions Num) (sr : StepResult Num)
      → (grpc_evaluate_assertions R A C code_name tc stored id a sr ≡ [])
        ↔ Meets tc stored (record a { headers = none }) sr
  unfolding grpc_evaluate_assertions parsed_header_matchers
  grpc_evaluate_assertions_iff code_name tc stored id a sr =
      let code = sr.status_code in
      let suffix = code_suffix R A C code_name in
      let plain : ℤ → Text = λ z. [] in
      let i = ++-nil_iff (status_failures_iff R A C suffix id a.status code) (
        ++-nil_iff (status_in_failures_iff id a.status_in code) (
          ++-nil_iff (body_failures_iff R C stored id sr a.body) (
            ++-nil_iff (body_absent_failures_iff R C id (parsed_value sr) a.body_absent) (
              ++-nil_iff (timing_failures_iff R A C tc id sr.duration_ms a.timing_ms)
                (body_contains_failures_iff C.quote id sr.body a.body_contains))))) in
      (
        λ e.
            let (s, (si, (b, (ba, (t, bc))))) = i.0 e in
            record {
              status =
                  Each-map a.status
                    (λ raw. evaluate_status_assertion-suffix R C suffix plain raw code) s;
              status_in = si;
              body = b;
              body_absent = ba;
              headers = tt;
              timing_ms = t;
              body_contains = bc;
            },
        λ m.
            let s =
              Each-map a.status (λ raw. evaluate_status_assertion-suffix R C plain suffix raw code)
                m.status in
            i.1 (s, (m.status_in, (m.body, (m.body_absent, (m.timing_ms, m.body_contains))))),
      )

  -- On the same result, the gRPC runner reports no failure exactly when the HTTP runner reports none
  -- for the assertions without those on headers.
  pub grpc_evaluate_assertions-evaluate_assertions :
      (code_name : ℤ → Text) (tc : TimingConfig Num) (stored : Stored Num) (id : Text)
      → (a : Assertions Num) (sr : StepResult Num)
      → (grpc_evaluate_assertions R A C code_name tc stored id a sr ≡ [])
        ↔ (evaluate_assertions R A C tc stored id (record a { headers = none }) sr ≡ [])
  grpc_evaluate_assertions-evaluate_assertions code_name tc stored id a sr =
      let g = grpc_evaluate_assertions_iff code_name tc stored id a sr in
      let h = evaluate_assertions_iff tc stored id (record a { headers = none }) sr in
      ((λ e. h.1 (g.0 e)), (λ e. g.1 (h.0 e)))
