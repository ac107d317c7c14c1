-- ===== src/Execute.antt =====
-- executeStep of runner/http/runner.go. net/http is the argument `send`, which has the outcome of a
-- request: what http.NewRequest, Client.Do and io.ReadAll return. The pauses of time.Sleep are listed
-- by `pauses`.
pub mod Grpc
pub mod Passing
pub mod Cases
use ojs_conformance.Common.{
  Text, text, ℤ, pos, Bool, List, [], ◌∷◌, ◌++◌, Option, none, some, ◌&&◌, str_eq, ltb_ℤ,
  equal_fold, if◌then◌else◌,
}
use ojs_conformance.Json.{Runtime, Entries}
use ojs_conformance.Schema.{Step, Assertions, StepResult, Failure}
use ojs_conformance.Schema.Headers.{get_text}
use ojs_conformance.Timing.{Arithmetic, TimingConfig}
use ojs_conformance.Runner.{Stored, Executed}
use ojs_conformance.Evaluate.{Codec, failure}
use ojs_conformance.Evaluate.Templates.{resolve_templates}
use ojs_conformance.Evaluate.Steps.{evaluate_assertions}

-- http.Request, as far as executeStep sets it
pub record Request : Type 0 where
  pub method : Text
  pub url : Text
  pub headers : List (Text × Text)
  pub body : Option Text

-- http.Response with its body read, and the milliseconds of Client.Do
pub record Response : Type 0 where
  pub status_code : ℤ
  pub headers : List (Text × Text)
  pub body : Text
  pub duration_ms : ℤ

-- The error of http.NewRequest, of Client.Do or of io.ReadAll, or the response.
pub data Sent : Type 0 where
  not_created : Text → Sent
  not_sent : Text → Sent
  not_read : Text → Sent
  answered : Response → Sent

abbrev pub ojs_media_type : Text
ojs_media_type = text "application/openjobspec+json"

-- Setting a key of a map of strings.
unfoldable pub set_text : Text → Text → List (Text × Text) → List (Text × Text)
unfolding str_eq
set_text k v [] = (k, v) ∷ []
set_text k v ((j, w) ∷ m) =
    let rest = set_text k v m in if str_eq j k then (k, v) ∷ m else (j, w) ∷ rest

-- The result of a step that got no response.
abbrev pub blank : {Num : Type 0} → Text → StepResult Num
blank id = record {
  step_id = id;
  status_code = pos 0;
  headers = [];
  body = [];
  duration_ms = pos 0;
  parsed = none;
}

abbrev pub is_wait : Text → Bool
is_wait action = equal_fold action (text "WAIT")

-- A pause of so many milliseconds, if that is positive.
abbrev pub pause : ℤ → List ℤ
pause ms = if ltb_ℤ (pos 0) ms then ms ∷ [] else []

module _ {Num : Type 0} where
  -- The failures of a step that has assertions.
  abbrev pub if_asserted : (Assertions Num → List Failure) → Option (Assertions Num) → List Failure
  if_asserted evaluate none = []
  if_asserted evaluate (some a) = evaluate a

  -- The pauses of executeStep, in milliseconds.
  unfoldable pub pauses : Step Num → List ℤ
  unfolding equal_fold
  pauses step =
      let wait_ms = if ltb_ℤ (pos 0) step.duration_ms then step.duration_ms else step.delay_ms in
      let waits = if is_wait step.action then pause wait_ms else [] in pause step.delay_ms ++ waits

module _ {Num : Type 0} (R : Runtime Num) (A : Arithmetic Num) (C : Codec Num) where
  -- The loop over step.Headers.
  unfoldable pub set_headers : List (Text × Text) → List (Text × Text) → List (Text × Text)
  unfolding set_text
  set_headers [] headers = headers
  set_headers ((k, v) ∷ more) headers = set_headers more (set_text (C.header_key k) v headers)

  -- The default content type of a request with a body.
  unfoldable pub default_content_type : Option Text → List (Text × Text) → List (Text × Text)
  unfolding set_text str_eq
  default_content_type none headers = headers
  default_content_type (some body) headers =
      let key = C.header_key (text "Content-Type") in
      let set = set_text key ojs_media_type headers in
      elim (get_text key headers) [ none ↦ set | some v ↦ if str_eq v [] then set else headers ]

  -- The request that executeStep sends.
  unfoldable pub request_of : Text → Stored Num → Step Num → Request
  unfolding resolve_templates set_headers default_content_type
  request_of base_url stored step =
      let body : Option Text = elim step.body [
        | none ↦ none
        | some b ↦ some (resolve_templates R C b stored)
      ] in
      record {
        method = step.action;
        url = base_url ++ resolve_templates R C step.path stored;
        headers = default_content_type body (set_headers step.headers []);
        body = body;
      }

  -- json.Unmarshal of a body that is not empty
  abbrev pub parse_body : Text → Option (Entries Num)
  parse_body [] = none
  parse_body (c ∷ cs) = C.parse_object (c ∷ cs)

  abbrev pub result_of_response : Text → Response → StepResult Num
  result_of_response id resp = record {
    step_id = id;
    status_code = resp.status_code;
    headers = resp.headers;
    body = resp.body;
    duration_ms = resp.duration_ms;
    parsed = parse_body resp.body;
  }

  abbrev pub no_response : Text → Text → Text → Executed Num
  no_response id what message = (blank id, failure id [] [] [] (what ++ message) ∷ [])

  -- The result and the failures, from the outcome of the request.
  unfoldable pub conclude : TimingConfig Num → Stored Num → Step Num → Sent → Executed Num
  unfolding evaluate_assertions
  conclude tc stored step (not_created e) =
      no_response step.id (text "Failed to create request: ") e
  conclude tc stored step (not_sent e) = no_response step.id (text "HTTP request failed: ") e
  conclude tc stored step (not_read e) =
      no_response step.id (text "Failed to read response body: ") e
  conclude tc stored step (answered resp) =
      let sr = result_of_response step.id resp in
      (sr, if_asserted (λ a. evaluate_assertions R A C tc stored step.id a sr) step.assertions)

  -- executeStep
  unfoldable pub execute_step :
      Text → TimingConfig Num → (Request → Sent) → Stored Num → Step Num → Executed Num
  unfolding equal_fold conclude request_of
  execute_step base_url tc send stored step =
      if is_wait step.action
      then (blank step.id, [])
      else conclude tc stored step (send (request_of base_url stored step))
