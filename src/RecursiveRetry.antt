-- ===== src/RecursiveRetry.antt =====
-- functions/recursive-retry.js: the modules of an answer that were refused are asked for again, each
-- at most twice. The model, JSON.parse and zod are parameters; the calls of the model are kept in
-- their order, and a reply may depend on how many calls came before. The prompts and the sampling
-- settings follow from the module's name.
pub mod Answers
pub mod Bounds
use sentinel_engine_sovereig.Base.{
  ℕ, zero, suc, String, Bool, true, false, Option, none, some, List, [], ◌∷◌, ◌++◌, length,
  includes, Result, ok, err, ◌>>=◌, ◌==◌, if◌then◌else◌,
}
use sentinel_engine_sovereig.Base.Int.{pos}
use sentinel_engine_sovereig.SecurityManager.Patterns.{Text}
use sentinel_engine_sovereig.Replies.{clean}
use sentinel_engine_sovereig.Schemas.Values.{
  Json, Items, Fields, num, str, arr, obj, no_items, item, no_fields, member, texts, is_truthy,
  get_field, set_field, one_unit, Fault,
}
use sentinel_engine_sovereig.Schemas.Shapes.{
  Schema, geography_schema, risk_matrix_schema, executive_action_schema, empty_geography,
  empty_risk_matrix,
}
use sentinel_engine_sovereig.Schemas.{Zod, Validation, validate_inference_response}

abbrev pub max_retries_per_module : ℕ
max_retries_per_module = 2

-- a call of generateContent for a module
pub record Request : Type 0 where
  pub model_id : String
  pub module_name : String
  pub context : String
  pub query : String

-- the model, from the number of the call; `none` is an error of the call
abbrev pub GenaiClient : Type 0
GenaiClient = ℕ → Request → Option Text

-- what the code calls: the model, JSON.parse (`none` where it throws), zod and the clock
pub record Outside : Type 0 where
  pub client : GenaiClient
  pub parse : Text → Option Json
  pub zod : Zod
  pub timestamp : String

-- SUB_SCHEMA_MAP[moduleName], and whether MODULE_PROMPTS and MODULE_RESPONSE_SCHEMAS have the module
unfoldable pub sub_schema : String → Option Schema
sub_schema name =
    if name == "geography"
    then some geography_schema
    else if name == "riskMatrix"
    then some risk_matrix_schema
    else if name == "executiveAction"
    then some executive_action_schema
    else none

accepted : Zod → Schema → Option Json → Option Json
accepted zod schema none = none
accepted zod schema (some parsed) = elim (zod.safe_parse schema parsed) [
  | ok value ↦ some value
  | err issues ↦ none
]

read_reply : Outside → Schema → Option Text → Option Json
unfolding accepted
read_reply out schema none = none
read_reply out schema (some reply) = accepted out.zod schema (out.parse (clean reply))

abbrev pub Calls : Type 0
Calls = List Request

-- generateSubModule, for a module that is known
unfoldable pub generate_sub_module : Outside → Schema → Request → Calls → Calls × Option Json
unfolding read_reply
generate_sub_module out schema request calls =
    (calls ++ request ∷ [], read_reply out schema (out.client (length calls) request))

-- the loop over the attempts, with those that are left
unfoldable pub retry_module : Outside → Schema → Request → ℕ → Calls → Calls × Option Json
retry_module out schema request zero calls = (calls, none)
retry_module out schema request (suc left) calls =
    let (calls', found) = generate_sub_module out schema request calls in
    let rest = retry_module out schema request left calls' in
    elim found [ none ↦ rest | some value ↦ if is_truthy value then (calls', some value) else rest ]

-- what the loop over the failed modules has so far
pub record Progress : Type 0 where
  pub merged : Fields
  pub unrecoverable : List String
  pub calls : Calls

-- a name that is no module
default_field : String → Fields → Fields
default_field name merged =
    if name == "confidence"
    then set_field "confidence" (num (pos 500)) merged
    else if name == "sources"
    then set_field "sources" (arr (item (str "SENTINEL_INFERRED") no_items)) merged
    else merged

finish_module : String → Progress → Calls × Option Json → Progress
finish_module name p (calls, some value) = record p {
  merged = set_field name value p.merged;
  calls = calls;
}
finish_module name p (calls, none) = record p {
  unrecoverable = p.unrecoverable ++ name ∷ [];
  calls = calls;
}

-- one round of the loop
unfoldable pub retry_one : Outside → String → String → String → String → Progress → Progress
unfolding default_field finish_module sub_schema
retry_one out model_id context query name p = elim (sub_schema name) [
  | none ↦ record p { merged = default_field name p.merged }
  | some schema ↦ finish_module name p (
      retry_module out schema
        (record { model_id = model_id; module_name = name; context = context; query = query })
        max_retries_per_module p.calls)
]

unfoldable pub retry_each : Outside → String → String → String → List String → Progress → Progress
retry_each out model_id context query [] p = p
retry_each out model_id context query (name ∷ names) p =
    retry_each out model_id context query names (retry_one out model_id context query name p)

unfoldable pub exhausted : List String → Fields
exhausted [] = no_fields
exhausted (name ∷ names) = member name (str "Exhausted 2 retries") (exhausted names)

abbrev advice : String → String → Json
advice action priority = obj (
    member "action" (str action)
      (member "priority" (str priority) (member "confidence" (num (pos one_unit)) no_fields)))

-- buildGenericAdvisory
unfoldable pub build_generic_advisory : List String → Fields → String → Json
build_generic_advisory failed errors timestamp = obj (
    member "executiveAction"
      (obj (
        member "narrative"
          (str
            "Advisory: The intelligence engine encountered a schema validation anomaly during response synthesis. The data pipeline is operational, but the structured output could not be fully validated. Please retry your query or contact your system administrator if this persists.")
          (member "recommendations"
            (arr (
              item (advice "Retry your query with more specific parameters" "HIGH") (
                item (advice "Check data pipeline health in the Sovereign Audit Log" "MEDIUM")
                  no_items)))
            (member "metrics" (arr no_items) no_fields))))
      (member "geography" empty_geography (
        member "riskMatrix" empty_risk_matrix (
          member "confidence" (num (pos 0)) (
            member "sources" (arr (item (str "SENTINEL_GENERIC_ADVISORY") no_items)) (
              member "dataAuthority" (str "FALLBACK_ADVISORY") (
                member "_error"
                  (obj (
                    member "code" (str "SCHEMA_DECOMPOSITION_FAILURE") (
                      member "failedModules" (arr (texts failed)) (
                        member "errors" (obj errors)
                          (member "timestamp" (str timestamp) no_fields)))))
                  no_fields)))))))

-- if (!merged[name]) merged[name] = value
unfoldable pub fill : String → Json → Fields → Fields
fill name value merged = elim (get_field name merged) [
  | none ↦ set_field name value merged
  | some old ↦ if is_truthy old then merged else set_field name value merged
]

-- the result of a validation, where it is valid
unfoldable pub valid_result : Validation → Option Json
valid_result v = if v.valid then v.result else none

-- the checks after the loop; what is not said of the schema is the default, LOGISTICS in full
unfoldable pub conclude : Outside → Progress → Result Fault Json
unfolding exhausted valid_result fill
conclude out p =
    let advisory =
      build_generic_advisory p.unrecoverable (exhausted p.unrecoverable) out.timestamp in
    if includes p.unrecoverable "executiveAction"
    then ok advisory
    else validate_inference_response out.zod (obj p.merged) "LOGISTICS" false >>= λ first.
        elim (valid_result first) [
          | some result ↦ ok result
          | none ↦
              let filled =
                fill "riskMatrix" empty_risk_matrix (fill "geography" empty_geography p.merged) in
              validate_inference_response out.zod (obj filled) "LOGISTICS" false >>= λ last.
              elim (valid_result last) [ some result ↦ ok result | none ↦ ok advisory ]
        ]

-- recursiveSchemaRetry: the calls of the model and the answer
unfoldable pub recursive_schema_retry :
    Outside → String → String → String → Fields → List String → Calls × Result Fault Json
unfolding conclude retry_each retry_one
recursive_schema_retry out model_id context query partial failed =
    let p =
      retry_each out model_id context query failed
        (record { merged = partial; unrecoverable = []; calls = [] }) in
    (p.calls, conclude out p)
