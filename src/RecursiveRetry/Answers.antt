-- ===== src/RecursiveRetry/Answers.antt =====
-- functions/recursive-retry.js: what the retry returns.
use sentinel_engine_sovereig.Base.{
  String, false, none, some, List, [], Result, ok, err, includes, Bool-cases, inl, inr, ◌⊎◌, ◌≡◌,
  refl, arith,
}
use sentinel_engine_sovereig.Schemas.Values.{Json, Fields, obj, field_of, get_field}
use sentinel_engine_sovereig.Schemas.Shapes.{empty_geography, empty_risk_matrix}
use sentinel_engine_sovereig.Schemas.{
  Zod, names, Validation, get_schema_for_domain, report, schema_map, core_errors, validated,
  validate_inference_response,
}
use sentinel_engine_sovereig.Schemas.Reports.{module_errors-returns}
use sentinel_engine_sovereig.RecursiveRetry.{
  Outside, Progress, valid_result, fill, exhausted, build_generic_advisory, conclude, retry_each,
  recursive_schema_retry,
}

-- the validation of an object returns, and a result is what zod accepted
abbrev pub Accepts : Zod → Json → Type 0
Accepts zod answer =
    (given : Json) × (zod.safe_parse (get_schema_for_domain zod "LOGISTICS" false) given
      ≡ ok answer)

validated-returns :
    (zod : Zod) (members : Fields) (parsed : Result (List String) Json)
    → (v : Validation) × (validated zod "LOGISTICS" (obj members) parsed ≡ ok v)
      × ((valid_result v ≡ none)
          ⊎ ((answer : Json) × (valid_result v ≡ some answer) × (parsed ≡ ok answer)))
unfolding validated report valid_result field_of
validated-returns zod members (ok answer) = (_, refl, inr (answer, refl, refl))
validated-returns zod members (err issues) =
    let (found, returned) =
      module_errors-returns zod members (schema_map "LOGISTICS")
        (core_errors (get_field "confidence" members) (get_field "sources" members)) in
    (
      record { valid = false; result = none; failed_modules = names found; errors = found },
      rw (returned, report) refl,
      inl refl,
    )

-- what is returned where nothing is valid
abbrev pub IsAdvisory : Outside → Json → Type 0
IsAdvisory out answer =
    (failed : List String) × (answer
      ≡ build_generic_advisory failed (exhausted failed) out.timestamp)

conclude-returns :
    (out : Outside) (p : Progress)
    → (answer : Json) × (conclude out p ≡ ok answer)
      × (Accepts out.zod answer ⊎ IsAdvisory out answer)
unfolding conclude validate_inference_response
conclude-returns out p = elim (Bool-cases (includes p.unrecoverable "executiveAction")) [
  | inl critical ↦ (
    build_generic_advisory p.unrecoverable (exhausted p.unrecoverable) out.timestamp,
    rw (critical, conclude) refl,
    inr (p.unrecoverable, refl),
  )
  | inr other ↦
      let schema = get_schema_for_domain out.zod "LOGISTICS" false in
      let filled =
        fill "riskMatrix" empty_risk_matrix (fill "geography" empty_geography p.merged) in
      let (first, checked, outcome) =
        validated-returns out.zod p.merged (out.zod.safe_parse schema (obj p.merged)) in
      let (last, checked', outcome') =
        validated-returns out.zod filled (out.zod.safe_parse schema (obj filled)) in
      elim outcome [
        | inr (answer, result, parsed) ↦
            (answer, ground (arith, other, checked, result), inl (obj p.merged, parsed))
        | inl refused ↦ elim outcome' [
          | inr (answer, result, parsed) ↦ (
            answer,
            ground (arith, other, checked, refused, checked', result),
            inl (obj filled, parsed),
          )
          | inl refused' ↦ (
            build_generic_advisory p.unrecoverable (exhausted p.unrecoverable) out.timestamp,
            ground (arith, other, checked, refused, checked', refused'),
            inr (p.unrecoverable, refl),
          )
        ]
      ]
]

-- The retry always returns, whatever the model replies and whatever modules are reported: its answer
-- is one that zod accepted under the whole schema of LOGISTICS, or the generic advisory.
pub recursive_schema_retry-returns :
    (out : Outside) (model_id context query : String) (partial : Fields) (failed : List String)
    → (answer : Json) × ((recursive_schema_retry out model_id context query partial failed).1
        ≡ ok answer)
      × (Accepts out.zod answer ⊎ IsAdvisory out answer)
unfolding recursive_schema_retry
recursive_schema_retry-returns out model_id context query partial failed = conclude-returns out (
    retry_each out model_id context query failed
      (record { merged = partial; unrecoverable = []; calls = [] }))
