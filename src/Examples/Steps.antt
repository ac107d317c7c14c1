-- ===== src/Examples/Steps.antt =====
-- The theorems on templates, with the result of a step that created the job 7.
use ojs_conformance.Common.{
  Text, text, ℤ, pos, [], ◌∷◌, ◌++◌, some, ◌≡◌, refl, arith, decimal_ℤ, length, take, if◌then◌else◌,
  ◌==◌, ◌-◌,
}
use ojs_conformance.Json.{Raw, Value, Entries, entry, end}
use ojs_conformance.Assertions.Format.{sprint_v}
use ojs_conformance.Schema.{StepResult}
use ojs_conformance.Timing.{TimingConfig}
use ojs_conformance.Runner.{Stored}
use ojs_conformance.Evaluate.{Codec}
use ojs_conformance.Evaluate.Templates.{Reference, matched, replace, resolve_templates}
use ojs_conformance.Evaluate.References.{IsReference, resolve_templates-matched}
use ojs_conformance.JsonPath.{resolve_json_path}
use ojs_conformance.Examples.{whole}

abbrev quoted : Raw ℤ → Text
quoted (Raw.int z) = decimal_ℤ z
quoted (Raw.string s) = b'"' ∷ (s ++ text "\"")
quoted _ = []

-- The text between quotes, as a string.
abbrev unquoted : Text → Raw ℤ
unquoted [] = Raw.malformed []
unquoted (c ∷ cs) =
    if c == b'"' then Raw.string (take (length cs - 1) cs) else Raw.malformed (c ∷ cs)

abbrev pub job_7 : Entries ℤ
job_7 = entry (text "id") (Value.float64 (pos 7)) end

abbrev pub codec : Codec ℤ
codec = record {
  text_of = quoted;
  raw_of = unquoted;
  marshal = sprint_v whole;
  parse_object = λ s. some job_7;
  quote = λ s. s;
  path_message = λ e. text "no value";
  mismatch_message = λ e. text "no match";
  timing_message = λ e. text "not approximate";
  header_key = λ k. k;
}

abbrev pub config : TimingConfig ℤ
config = record { tolerance_pct = pos 50; min_tolerance_ms = pos 100; max_wait_ms = pos 30000 }

abbrev pub created : StepResult ℤ
created = record {
  step_id = text "create";
  status_code = pos 201;
  headers = [];
  body = text "{\"id\": 7}";
  duration_ms = pos 3;
  parsed = some job_7;
}

abbrev pub results : Stored ℤ
results = (text "create", created) ∷ []

abbrev reference : Reference
reference = record { step_id = text "create"; field_path = text "id" }

resolve_templates_path :
    resolve_templates whole codec (text "/ojs/v1/jobs/{{steps.create.response.body.id}}/x") results
    ≡ text "/ojs/v1/jobs/7/x"
unfolding resolve_templates resolve_json_path decimal_ℤ
resolve_templates_path = refl

reference-IsReference : IsReference reference
reference-IsReference = record {
  id_nonempty = λ e. ground arith;
  id_plain = refl;
  path_nonempty = λ e. ground arith;
  path_plain = refl;
}

resolve_templates-matched_example :
    resolve_templates whole codec (text "/jobs/" ++ (matched reference ++ text "/x")) results
    ≡ text "/jobs/"
      ++ (replace whole codec results reference
          ++ resolve_templates whole codec (text "/x") results)
resolve_templates-matched_example =
    resolve_templates-matched whole codec results (text "/jobs/") (text "/x") reference refl
      reference-IsReference

abbrev matcher : Raw ℤ
matcher = Raw.string (text "{{steps.create.response.body.id}}")
