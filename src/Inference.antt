-- ===== src/Inference.antt =====
-- functions/index.js: the part of handleSentinelInference from the generation of an answer to the
-- response. The calls of the model are counted; the retrieval of the context, the prompts and the
-- sampling settings are left out.
pub mod Calls
pub mod Outcomes
pub mod Responses
use sentinel_engine_sovereig.Base.{
  ℕ, zero, suc, ◌+◌, String, Bool, true, false, Option, none, some, List, [], ◌∷◌, length, Result,
  ok, err, ◌>>=◌, ◌==◌, ◌⧺◌, ◌&&◌, not, includes, if◌then◌else◌,
}
use sentinel_engine_sovereig.Base.Int.{pos, ltb_ℤ}
use sentinel_engine_sovereig.SecurityManager.Patterns.{Text, codes}
use sentinel_engine_sovereig.Replies.{clean}
use sentinel_engine_sovereig.Schemas.Values.{
  Json, Items, Fields, bool, num, str, arr, obj, no_items, item, no_fields, member, is_truthy,
  get_field, set_field,
}
use sentinel_engine_sovereig.Schemas.{Validation, is_confidence, validate_inference_response}
use sentinel_engine_sovereig.RecursiveRetry as Retry
use sentinel_engine_sovereig.Schemas.Values as Values
use sentinel_engine_sovereig.RecursiveRetry.{
  valid_result, build_generic_advisory, recursive_schema_retry,
}
use sentinel_engine_sovereig.IntegrityController as Audit
use sentinel_engine_sovereig.IntegrityController.{inner, text_of, final_truth_audit}

pub data Fault : Type 0 where
  -- an error of the call of the model, and a property set on what is no object
  call_failed no_object : Fault
  audit : Audit.Fault → Fault

-- what the code calls: the model, from the number of the attempt, and what the retry and the audit use;
-- `show` writes an index
pub record Outside : Type 0 where
  pub generate : ℕ → Option Text
  pub parse_error : String
  pub show : ℕ → String
  pub retry : Retry.Outside
  pub tokenize : String → Option String

-- the query and what was found for it
pub record Question : Type 0 where
  pub query : String
  pub model_id : String
  pub industry_domain : String
  pub context_payload : String
  pub data_authority : Option String

-- the own properties of an array and of a text, for { ...value }
abbrev indexed : (ℕ → String) → ℕ → Items → Fields
indexed show n no_items = no_fields
indexed show n (item value rest) = member (show n) value (indexed show (suc n) rest)

abbrev characters : (ℕ → String) → ℕ → String → Fields
characters show n String.[] = no_fields
characters show n (String.◌∷◌ c s) =
    member (show n) (str (String.◌∷◌ c String.[])) (characters show (suc n) s)

abbrev spread : (ℕ → String) → Json → Fields
spread show value = elim value [
  | obj members ↦ members
  | arr items ↦ indexed show 0 items
  | str s ↦ characters show 0 s
  | _ ↦ no_fields
]

-- how many calls the retry made, and the answer where nothing was thrown
retried : Retry.Calls × Result Values.Fault Json → ℕ × Option Json
retried (calls, ok answer) = (length calls, some answer)
retried (calls, err fault) = (length calls, none)

-- what follows the validation of a reply
recovered : Outside → Question → Json → Validation → ℕ × Option Json
unfolding retried
recovered out q parsed v = elim (valid_result v) [
  | some answer ↦ (0, some answer)
  | none ↦ retried (
      recursive_schema_retry out.retry q.model_id q.context_payload q.query (spread out.show parsed)
        v.failed_modules)
]

-- the body of the inner try: `none` is what its handler catches
unfoldable pub read_answer : Outside → Question → Text → ℕ × Option Json
unfolding recovered
read_answer out q reply = elim (out.retry.parse (clean reply)) [
  | none ↦ (0, none)
  | some parsed ↦ elim (validate_inference_response out.retry.zod parsed q.industry_domain false) [
    | err fault ↦ (0, none)
    | ok v ↦ recovered out q parsed v
  ]
]

abbrev pub parse_advisory : Outside → Json
parse_advisory out =
    build_generic_advisory ("executiveAction" ∷ []) (member "parse" (str out.parse_error) no_fields)
      out.retry.timestamp

-- the loop over the attempts, with those that are left: the number of calls, and the data
unfoldable pub generate_from : Outside → Question → ℕ → ℕ → ℕ × Result Fault Json
generate_from out q zero attempt = (0, ok (parse_advisory out))
generate_from out q (suc left) attempt =
    let later = generate_from out q left (suc attempt) in
    elim (out.generate attempt) [
      | none ↦ (1, err call_failed)
      | some reply ↦
          let (asked, answer) = read_answer out q reply in
          elim answer [ some data_ ↦ (1 + asked, ok data_) | none ↦ (1 + asked + later.0, later.1) ]
    ]

-- a || b
abbrev or_value : Option Json → Json → Json
or_value none b = b
or_value (some a) b = if is_truthy a then a else b

abbrev without_field : String → Fields → Fields
without_field name no_fields = no_fields
without_field name (member key value rest) =
    if key == name then rest else member key value (without_field name rest)

-- an authority that is undefined is a field that zod takes for missing
set_authority : Option String → Fields → Fields
set_authority none members = without_field "dataAuthority" members
set_authority (some authority) members = set_field "dataAuthority" (str authority) members

-- what the handler sets at the top of an answer
unfoldable pub with_top : Option String → Fields → Fields
unfolding set_authority
with_top authority members =
    let action = get_field "executiveAction" members in
    let told =
      set_field "narrative"
        (or_value (inner "narrative" action)
          (or_value (inner "rationale" action) (or_value (get_field "narrative" members) (str ""))))
        members in
    let measured =
      set_field "metrics"
        (or_value (inner "metrics" action) (or_value (get_field "metrics" told) (arr no_items)))
        told in
    set_authority authority measured

-- data.confidence < limit, of the values that an answer can have there
is_unsure : ℕ → Fields → Bool
is_unsure limit members = elim (get_field "confidence" members) [
  | none ↦ false
  | some value ↦ elim value [ num n ↦ ltb_ℤ n (pos limit) | _ ↦ false ]
]

unfoldable pub query_class : Fields → String
unfolding is_unsure
query_class members =
    let class = text_of (inner "classification" (get_field "executiveAction" members)) in
    if includes ("SENSITIVE" ∷ "GENERAL" ∷ "HIGH_IMPACT" ∷ "RESTRICTED" ∷ []) class
    then class
    else if is_unsure 500 members
    then "SENSITIVE"
    else "GENERAL"

unfoldable pub impact_of : Fields → String
impact_of members =
    if text_of (inner "classification" (get_field "executiveAction" members)) == "HIGH_IMPACT"
    then "HIGH_IMPACT"
    else "STANDARD"

-- a confidence that is no number between 0 and 1 counts as 0
checked_confidence : Fields → Fields
checked_confidence members =
    if is_confidence (get_field "confidence" members)
    then members
    else set_field "confidence" (num (pos 0)) members

replaced : Fields → Fields
replaced members = set_field "metrics" (arr no_items) (
    set_field "narrative"
      (str
        "Insufficient sovereign data to support a high-confidence decision. Confidence threshold unmet.")
      members)

-- the Confidence Gate
unfoldable pub gate : Fields → Fields
unfolding is_unsure checked_confidence replaced
gate members =
    if is_unsure 700 (checked_confidence members)
    then replaced (checked_confidence members)
    else checked_confidence members

pub record Delivered : Type 0 where
  pub answer : Json
  pub query_classification : String
  pub impact_level : String

lift_audit : {A : Type 0} → Result Audit.Fault A → Result Fault A
lift_audit (ok a) = ok a
lift_audit (err fault) = err (audit fault)

-- from the data that was generated to the audit
unfoldable pub conclude : Outside → Question → Json → Result Fault Delivered
unfolding lift_audit
conclude out q value = elim value [
  | obj members ↦
      let topped = with_top q.data_authority members in
      lift_audit (
        final_truth_audit out.retry.zod out.tokenize (obj (gate topped)) (some q.industry_domain)
          (codes q.context_payload))
      >>= λ answer. ok (record {
        answer = answer;
        query_classification = query_class topped;
        impact_level = impact_of topped;
      })
  | _ ↦ err no_object
]

abbrev pub max_attempts : ℕ
max_attempts = 2

-- the number of calls of the model, and what is delivered
unfoldable pub infer : Outside → Question → ℕ × Result Fault Delivered
infer out q =
    let (calls, generated) = generate_from out q max_attempts 0 in
    (calls, generated >>= λ value. conclude out q value)
