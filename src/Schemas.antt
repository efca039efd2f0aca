-- ===== src/Schemas.antt =====
-- functions/schemas.js: validateInferenceResponse and the choice of a schema. What zod
-- does with a schema is a parameter.
pub mod Values
pub mod Shapes
pub mod Reports
use sentinel_engine_sovereig.Base.{
  ℕ, String, Bool, true, false, Option, none, some, List, [], ◌∷◌, ◌++◌, Result, ok, err, ◌>>=◌,
  ◌==◌, ◌||◌, ◌&&◌, not, if◌then◌else◌,
}
use sentinel_engine_sovereig.Base.Int.{ℤ, pos, negsuc, ltb_ℤ}
use sentinel_engine_sovereig.Schemas.Values.{
  Json, Items, Fields, texts, no_items, num, arr, no_fields, field_of, is_truthy, type_error, Fault,
  one_unit,
}
use sentinel_engine_sovereig.Schemas.Shapes.{
  Schema, geography_schema, risk_matrix_schema, executive_action_schema, grid_status_schema,
  core_schema, energy_schema, inference_response_schema, degraded_energy_ext_schema,
  degraded_logistics_ext_schema,
}

-- zod: the choice of fields, the merge of two objects, and safeParse, with the data or the texts of
-- the issues
pub record Zod : Type 0 where
  pub pick : List String → Schema → Schema
  pub merge : Schema → Schema → Schema
  pub safe_parse : Schema → Json → Result (List String) Json

unfoldable pub get_schema_for_domain : Zod → String → Bool → Schema
get_schema_for_domain zod domain is_partial =
    if domain == "ENERGY"
    then zod.merge core_schema (
        if is_partial
        then degraded_energy_ext_schema
        else zod.pick ("gridStatus" ∷ "riskMatrix" ∷ []) energy_schema)
    else zod.merge core_schema (
        if is_partial
        then degraded_logistics_ext_schema
        else zod.pick ("geography" ∷ "riskMatrix" ∷ []) inference_response_schema)

-- the entries of SUB_SCHEMA_MAP
unfoldable pub sub_schema_map : List (String × Schema)
sub_schema_map =
    ("geography", geography_schema)
    ∷ ("riskMatrix", risk_matrix_schema)
    ∷ ("executiveAction", executive_action_schema)
    ∷ []

unfoldable pub schema_map : String → List (String × Schema)
unfolding sub_schema_map
schema_map domain =
    if domain == "ENERGY"
    then ("gridStatus", grid_status_schema)
      ∷ ("riskMatrix", risk_matrix_schema)
      ∷ ("executiveAction", executive_action_schema)
      ∷ []
    else sub_schema_map

abbrev pub Errors : Type 0
Errors = List (String × List String)

pub record Validation : Type 0 where
  pub valid : Bool
  pub result : Option Json
  pub failed_modules : List String
  pub errors : Errors

-- the report on a module that is present
check_module : Zod → Schema → Option Json → Option (List String)
check_module zod schema none = none
check_module zod schema (some value) =
    if is_truthy value
    then elim (zod.safe_parse schema value) [ ok parsed ↦ none | err issues ↦ some issues ]
    else none

add_report : String → Option (List String) → Errors → Errors
add_report name none rest = rest
add_report name (some issues) rest = (name, issues) ∷ rest

-- the loop over the entries of the map, with what is reported after it
unfoldable pub module_errors : Zod → Json → List (String × Schema) → Errors → Result Fault Errors
unfolding check_module add_report
module_errors zod answer [] rest = ok rest
module_errors zod answer ((name, schema) ∷ entries) rest = do
  value ← field_of name answer
  reported ← module_errors zod answer entries rest
  ok (add_report name (check_module zod schema value) reported)

-- whether it is a number between 0 and 1
unfoldable pub is_confidence : Option Json → Bool
is_confidence none = false
is_confidence (some value) = elim value [
  | num n ↦ not (ltb_ℤ n (pos 0)) && not (ltb_ℤ (pos one_unit) n)
  | _ ↦ false
]

unfoldable pub is_array : Option Json → Bool
is_array none = false
is_array (some value) = elim value [ arr items ↦ true | _ ↦ false ]

-- the checks of the mandatory core
unfoldable pub core_errors : Option Json → Option Json → Errors
unfolding is_confidence is_array
core_errors confidence sources =
    let rest =
      if is_array sources then [] else ("sources", "Must be an array of strings" ∷ []) ∷ [] in
    if is_confidence confidence
    then rest
    else ("confidence", "Must be a number between 0 and 1" ∷ []) ∷ rest

abbrev pub names : Errors → List String
names [] = []
names ((name, issues) ∷ rest) = name ∷ names rest

unfoldable pub report : Zod → String → Json → Result Fault Validation
unfolding module_errors core_errors
report zod domain answer = do
  confidence ← field_of "confidence" answer
  sources ← field_of "sources" answer
  found ← module_errors zod answer (schema_map domain) (core_errors confidence sources)
  ok (record { valid = false; result = none; failed_modules = names found; errors = found })

-- what follows safeParse
unfoldable pub validated : Zod → String → Json → Result (List String) Json → Result Fault Validation
unfolding report
validated zod domain answer (ok parsed) =
    ok (record { valid = true; result = some parsed; failed_modules = []; errors = [] })
validated zod domain answer (err issues) = report zod domain answer

unfoldable pub validate_inference_response : Zod → Json → String → Bool → Result Fault Validation
unfolding validated
validate_inference_response zod answer domain is_partial =
    validated zod domain answer
      (zod.safe_parse (get_schema_for_domain zod domain is_partial) answer)
