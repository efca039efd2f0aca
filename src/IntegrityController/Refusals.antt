-- ===== src/IntegrityController/Refusals.antt =====
-- functions/integrity-controller.js with functions/schemas.js and functions/recursive-retry.js: what
-- the last gate never lets through, and what it drops.
use sentinel_engine_sovereig.Base.{
  >>=-eq-ok, if◌then◌else◌, arith, String, Bool, true, false, Option, none, some, List, [], ◌∷◌,
  Result, ok, err, >>=-eq-ok, ◌==◌, or_text, Bool-cases, inl, inr, ◌≡◌, ◌≢◌, refl, ap, subst, ◌∙◌,
  arith,
}
use sentinel_engine_sovereig.SecurityManager.Patterns.{Text}
use sentinel_engine_sovereig.Schemas.Values as Values
use sentinel_engine_sovereig.Schemas.Values.{Json, Fields, obj, get_field}
use sentinel_engine_sovereig.Schemas.Shapes.{
  Schema, object, core_fields, core_schema, executive_action_schema, degraded_energy_ext_schema,
  degraded_logistics_ext_schema, energy_schema, inference_response_schema,
}
use sentinel_engine_sovereig.Schemas.{
  Zod, Validation, module_errors, schema_map, core_errors, get_schema_for_domain, validated, report,
  validate_inference_response,
}
use sentinel_engine_sovereig.RecursiveRetry.{build_generic_advisory}
use sentinel_engine_sovereig.IntegrityController.{
  gate_partial, sweep, audit_members, is_degraded, inner, audit_value, audit_result,
  audit_validation, final_truth_audit,
}
use sentinel_engine_sovereig.IntegrityController.Laws.{IsZod, IsObject, shape_field, schema_field}

-- a merge with an object that does not have the field
merged_field :
    (zod : Zod) (name : String) (extension : Schema)
    → IsZod zod
    → IsObject extension
    → schema_field name extension ≡ none
    → IsObject (zod.merge core_schema extension)
      × (schema_field name (zod.merge core_schema extension) ≡ shape_field name core_fields)
merged_field zod name extension laws (shape, is) without =
    let bare : shape_field name shape ≡ none = subst (λ s. schema_field name s ≡ none) is without in
    rw is (
      laws.merge-IsObject core_fields shape,
      laws.merge_fields name core_fields shape ∙ rw bare refl,
    )

-- names that only the core has, or no schema at all
abbrev pub IsNoExtension : String → Type 0
IsNoExtension name =
    (("geography" == name) ≡ false)
    × (("riskMatrix" == name) ≡ false)
    × (("gridStatus" == name) ≡ false)

answer_field :
    (zod : Zod) (domain name : String) (is_partial : Bool)
    → IsZod zod
    → IsNoExtension name
    → IsObject (get_schema_for_domain zod domain is_partial)
      × (schema_field name (get_schema_for_domain zod domain is_partial)
          ≡ shape_field name core_fields)
unfolding get_schema_for_domain
answer_field zod domain name is_partial laws (geo, risk, grid) =
    elim (Bool-cases (domain == "ENERGY")) [
      | inl energy ↦ at_energy is_partial energy
      | inr other ↦ at_logistics is_partial other
    ]
  where
    at_energy :
        (p : Bool)
        → (domain == "ENERGY") ≡ true
        → IsObject (get_schema_for_domain zod domain p)
          × (schema_field name (get_schema_for_domain zod domain p) ≡ shape_field name core_fields)
    at_energy true e =
        rw (e, get_schema_for_domain)
          (merged_field zod name degraded_energy_ext_schema laws (_, refl)
            (ground (arith, grid, risk)))
    at_energy false e =
        rw (e, get_schema_for_domain)
          (merged_field zod name (zod.pick ("gridStatus" ∷ "riskMatrix" ∷ []) energy_schema) laws
            (laws.pick-IsObject _ _) (laws.pick_fields name _ _ ∙ ground (arith, grid, risk)))

    at_logistics :
        (p : Bool)
        → (domain == "ENERGY") ≡ false
        → IsObject (get_schema_for_domain zod domain p)
          × (schema_field name (get_schema_for_domain zod domain p) ≡ shape_field name core_fields)
    at_logistics true e =
        rw (e, get_schema_for_domain)
          (merged_field zod name degraded_logistics_ext_schema laws (_, refl)
            (ground (arith, geo, risk)))
    at_logistics false e =
        rw (e, get_schema_for_domain)
          (merged_field zod name
            (zod.pick ("geography" ∷ "riskMatrix" ∷ []) inference_response_schema) laws
            (laws.pick-IsObject _ _) (laws.pick_fields name _ _ ∙ ground (arith, geo, risk)))

report-invalid :
    (zod : Zod) (domain : String) (answer : Json) (v : Validation)
    → report zod domain answer ≡ ok v
    → v.valid ≡ false
unfolding report
report-invalid zod domain answer v h =
    let (confidence, _, h1) = >>=-eq-ok (Values.field_of "confidence" answer) _ h in
    let (sources, _, h2) = >>=-eq-ok (Values.field_of "sources" answer) _ h1 in
    let (found, _, end) =
      >>=-eq-ok (module_errors zod answer (schema_map domain) (core_errors confidence sources)) _
        h2 in
    ground (arith, end)

audit_validation-refused :
    (tokenize : String → Option String) (is_partial : Bool)
    (checked : Result Values.Fault Validation) (audited : Json)
    → ((v : Validation) → checked ≡ ok v → v.valid ≡ false)
    → audit_validation tokenize is_partial checked ≢ ok audited
unfolding audit_validation audit_result
audit_validation-refused tokenize is_partial (err fault) audited invalid h = cc
audit_validation-refused tokenize is_partial (ok v) audited invalid h =
    ground (arith, h, invalid v refl)

audit_parsed :
    (zod : Zod) (tokenize : String → Option String) (is_partial : Bool) (domain : String)
    (answer audited : Json) (parsed : Result (List String) Json)
    → audit_validation tokenize is_partial (validated zod domain answer parsed) ≡ ok audited
    → (value : Json) × (parsed ≡ ok value) × (audit_value tokenize is_partial value ≡ ok audited)
unfolding audit_validation audit_result validated
audit_parsed zod tokenize is_partial domain answer audited (ok value) h = (value, refl, h)
audit_parsed zod tokenize is_partial domain answer audited (err issues) h = absurd (
    audit_validation-refused tokenize is_partial (report zod domain answer) audited
      (report-invalid zod domain answer) h)

-- An audit that returns has an answer that zod accepted for the domain.
pub audit-eq-ok :
    (zod : Zod) (tokenize : String → Option String) (answer audited : Json) (domain : Option String)
    (context : Text)
    → final_truth_audit zod tokenize answer domain context ≡ ok audited
    → (value : Json) × (zod.safe_parse
          (get_schema_for_domain zod (or_text domain "LOGISTICS") (is_degraded context))
          answer
        ≡ ok value)
      × (audit_value tokenize (is_degraded context) value ≡ ok audited)
unfolding final_truth_audit validate_inference_response
audit-eq-ok zod tokenize answer audited domain context h =
    audit_parsed zod tokenize (is_degraded context) (or_text domain "LOGISTICS") answer audited
      (zod.safe_parse (get_schema_for_domain zod (or_text domain "LOGISTICS") (is_degraded context))
        answer)
      h

parse_action :
    (zod : Zod) (domain : String) (is_partial : Bool) (members : Fields) (value : Json)
    → IsZod zod
    → zod.safe_parse (get_schema_for_domain zod domain is_partial) (obj members) ≡ ok value
    → inner "classification" (get_field "executiveAction" members) ≢ none
parse_action zod domain is_partial members value laws accepted missing =
    let ((shape, is), at) =
      answer_field zod domain "executiveAction" is_partial laws (refl, refl, refl) in
    let parsed : zod.safe_parse (object shape) (obj members) ≡ ok value =
      subst (λ s. zod.safe_parse s (obj members) ≡ ok value) is accepted in
    let (action, action', found, accepted') =
      laws.parse_required shape members value "executiveAction" executive_action_schema parsed
        (subst (λ s. schema_field "executiveAction" s ≡ some executive_action_schema) is at) refl in
    let (fields, fields', is_fields, _) = laws.parse_object _ action action' accepted' in
    let accepted'' =
      subst (λ a. zod.safe_parse executive_action_schema a ≡ ok action') is_fields accepted' in
    let (class, class', there, _) =
      laws.parse_required _ fields action' "classification" _ accepted'' refl refl in
    let in_fields : inner "classification" (get_field "executiveAction" members) ≡ some class =
      ap (inner "classification") found
      ∙ ap (λ (a : Json). inner "classification" (some a)) is_fields
      ∙ there in
    cc

-- The advisory that the retry falls back to is never delivered: an answer with its executive action,
-- which has no classification, does not pass the last gate, whatever other fields were set on it, and
-- whatever the domain is and whether or not the context is partial.
pub audit-advisory_refused :
    (zod : Zod) (tokenize : String → Option String) (failed : List String) (errors members : Fields)
    (timestamp : String) (domain : Option String) (context : Text) (audited : Json)
    → IsZod zod
    → get_field "executiveAction" members
      ≡ inner "executiveAction" (some (build_generic_advisory failed errors timestamp))
    → final_truth_audit zod tokenize (obj members) domain context ≢ ok audited
unfolding build_generic_advisory get_field
audit-advisory_refused zod tokenize failed errors members timestamp domain context audited laws
      advisory h =
    let (value, accepted, _) = audit-eq-ok zod tokenize (obj members) audited domain context h in
    parse_action zod (or_text domain "LOGISTICS") (is_degraded context) members value laws accepted
      (ap (inner "classification") advisory)

-- What zod accepted has no field that no schema has.
pub parse-strips :
    (zod : Zod) (domain name : String) (is_partial : Bool) (answer : Json) (given : Fields)
    → IsZod zod
    → IsNoExtension name
    → shape_field name core_fields ≡ none
    → zod.safe_parse (get_schema_for_domain zod domain is_partial) answer ≡ ok (obj given)
    → get_field name given ≡ none
parse-strips zod domain name is_partial answer given laws apart missing accepted =
    let ((shape, is), at) = answer_field zod domain name is_partial laws apart in
    laws.parse_strips shape answer given name
      (subst (λ s. zod.safe_parse s answer ≡ ok (obj given)) is accepted)
      (subst (λ s. schema_field name s ≡ none) is (at ∙ missing))

audit_value-IsObject :
    (tokenize : String → Option String) (is_partial : Bool) (members : Fields) (audited : Json)
    → audit_value tokenize is_partial (obj members) ≡ ok audited
    → (out : Fields) × (audited ≡ obj out)
unfolding audit_value audit_members
audit_value-IsObject tokenize is_partial members audited h =
    let (gated, _, later) =
      >>=-eq-ok (if is_partial then gate_partial members else ok members) _ h in
    let (swept, _, end) = >>=-eq-ok (sweep tokenize gated) _ later in (swept, ground (arith, end))

-- What an audit returns is an object.
pub audit-IsObject :
    (zod : Zod) (tokenize : String → Option String) (answer audited : Json) (domain : Option String)
    (context : Text)
    → IsZod zod
    → final_truth_audit zod tokenize answer domain context ≡ ok audited
    → (out : Fields) × (audited ≡ obj out)
audit-IsObject zod tokenize answer audited domain context laws h =
    let (value, accepted, passed) = audit-eq-ok zod tokenize answer audited domain context h in
    let ((shape, is), _) =
      answer_field zod (or_text domain "LOGISTICS") "executiveAction" (is_degraded context) laws
        (refl, refl, refl) in
    let (_, members, _, is_object) =
      laws.parse_object shape answer value
        (subst (λ s. zod.safe_parse s answer ≡ ok value) is accepted) in
    audit_value-IsObject tokenize (is_degraded context) members audited
      (subst (λ v. audit_value tokenize (is_degraded context) v ≡ ok audited) is_object passed)
