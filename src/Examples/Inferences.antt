-- ===== src/Examples/Inferences.antt =====
-- functions/index.js: a question that is answered on the first attempt with little confidence, and one
-- to which the model never replies with JSON.
use sentinel_engine_sovereig.Base.{
  ◌≤◌, true, false, Option, none, some, [], ◌∷◌, eqb, if◌then◌else◌, ok, ◌≡◌, ◌≢◌, refl, subst,
  arith,
}
use sentinel_engine_sovereig.Replies.{clean}
use sentinel_engine_sovereig.SecurityManager.Patterns.{Text, codes, strip}
use sentinel_engine_sovereig.Schemas.{
  schema_map, validate_inference_response, get_schema_for_domain,
}
use sentinel_engine_sovereig.Schemas.Values.{
  Json, Fields, str, obj, no_fields, member, field_of, get_field, set_field,
}
use sentinel_engine_sovereig.Schemas.Shapes.{empty_geography, empty_risk_matrix}
use sentinel_engine_sovereig.IntegrityController.{final_truth_audit, is_degraded, contains}
use sentinel_engine_sovereig.RecursiveRetry.{
  valid_result, recursive_schema_retry, retry_each, retry_one, retry_module, generate_sub_module,
  sub_schema,
}
use sentinel_engine_sovereig.Inference.{
  Outside, Question, Delivered, infer, read_answer, generate_from, conclude, with_top, gate,
  query_class, impact_of,
}
use sentinel_engine_sovereig.Inference.Responses.{Request, respond, success, verification_status}
use sentinel_engine_sovereig.Inference.Calls.{infer-calls_le}
use sentinel_engine_sovereig.Inference.Outcomes.{respond-unverified}
use sentinel_engine_sovereig.Inference.Outcomes.Malformed.{malformed-undelivered}
use sentinel_engine_sovereig.Examples.Zods.{test_zod, test_zod-IsZod}
use sentinel_engine_sovereig.Examples.Audits.{own_text, answer_with}
use sentinel_engine_sovereig.Examples.Sidecar as Second

abbrev outside : (Text → Option Json) → Outside
outside parse = record {
  generate = λ attempt. some (codes "{}");
  parse_error = "Unexpected token";
  show = λ n. "0";
  retry = record {
    client = λ number request. none;
    parse = parse;
    zod = test_zod;
    timestamp = "2026-01-01";
  };
  tokenize = own_text;
}

abbrev unsure : Outside
unsure = outside (λ text. some (obj (answer_with 300 no_fields)))

-- JSON of the answer begins with a brace
abbrev braces : Text → Option Json
braces [] = none
braces (c ∷ text) = if eqb c b'{' then some (obj (answer_with 300 no_fields)) else none

-- the model replies with prose
abbrev speechless : Outside
speechless = record (outside braces) { generate = λ attempt. some (codes "I am sorry") }

prose : braces (clean (codes "I am sorry")) ≡ none
unfolding clean strip
prose = refl

abbrev question : Question
question = record {
  query = "Where is the ship?";
  model_id = "gemini";
  industry_domain = "LOGISTICS";
  context_payload = "rows";
  data_authority = some "POSTGRES_PRISTINE_RESERVOIR";
}

abbrev answer : Fields
answer = member "geography" empty_geography (
    member "riskMatrix" empty_risk_matrix
      (answer_with 300 (member "dataAuthority" (str "POSTGRES_PRISTINE_RESERVOIR") no_fields)))

abbrev delivered : Delivered
delivered = record {
  answer = obj answer;
  query_classification = "SENSITIVE";
  impact_level = "STANDARD";
}

inferred : (infer unsure question).1 ≡ ok delivered
unfolding infer generate_from read_answer validate_inference_response get_schema_for_domain
    get_field valid_result conclude final_truth_audit is_degraded contains strip gate with_top
    set_field query_class impact_of
inferred = refl

-- the first reply is prose, the second has three modules that zod refuses, and no retry is answered
abbrev refused : Fields
refused =
    member "geography" (str "here")
      (member "riskMatrix" (str "low") (member "executiveAction" (str "wait") no_fields))

abbrev refused_braces : Text → Option Json
refused_braces [] = none
refused_braces (c ∷ text) = if eqb c b'{' then some (obj refused) else none

abbrev insistent : Outside
insistent = record (outside refused_braces) {
  generate = λ attempt. some (codes (if eqb attempt 0 then "I am sorry" else "{}"));
}

eight_calls : (infer insistent question).0 ≡ 8
unfolding infer generate_from read_answer validate_inference_response get_schema_for_domain
    get_field valid_result clean strip recursive_schema_retry retry_each retry_one retry_module
    generate_sub_module sub_schema field_of schema_map
eight_calls = refl

infer-calls_le_example : (infer insistent question).0 ≤ 8
infer-calls_le_example = infer-calls_le insistent question

abbrev request : Request
request = record {
  request_id = "r-1";
  tenant_id = "acme";
  has_manager = true;
  is_resilience_mode = false;
}

respond-unverified_example :
    respond Second.outside request question delivered answer Second.start ≡ record {
      loop = Second.start;
      launched = false;
      response = success answer (verification_status answer true none) none;
    }
respond-unverified_example =
    respond-unverified unsure question delivered Second.outside request answer Second.start
      test_zod-IsZod inferred refl

malformed-undelivered_example :
    ((infer speechless question).0 ≤ 2) × ((infer speechless question).1 ≢ ok delivered)
malformed-undelivered_example =
    malformed-undelivered speechless question delivered test_zod-IsZod
      (λ attempt reply first replied.
        let same : codes "I am sorry" ≡ reply = ground (arith, replied) in
        subst (λ t. braces (clean t) ≡ none) same prose)
