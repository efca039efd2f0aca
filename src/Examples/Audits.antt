-- ===== src/Examples/Audits.antt =====
-- functions/recursive-retry.js and functions/integrity-controller.js with the zod of Zods.
use sentinel_engine_sovereig.Base.{
  ℕ, zero, suc, ◌≤◌, String, true, false, Option, none, some, List, [], ◌∷◌, ok, ◌≡◌, ◌≢◌, ◌⊎◌,
  refl,
}
use sentinel_engine_sovereig.Base.Int.{pos, ◌≤ℤ◌}
use sentinel_engine_sovereig.SecurityManager.Patterns.{Text, codes, strip}
use sentinel_engine_sovereig.SecurityManager.Providers.{text_length}
use sentinel_engine_sovereig.Schemas.Values.{
  Json, Fields, null, bool, num, str, arr, obj, no_items, no_fields, member, get_field, set_field,
}
use sentinel_engine_sovereig.Schemas.{get_schema_for_domain, validate_inference_response}
use sentinel_engine_sovereig.RecursiveRetry.{
  Outside, recursive_schema_retry, build_generic_advisory,
}
use sentinel_engine_sovereig.RecursiveRetry.Answers.{
  Accepts, IsAdvisory, recursive_schema_retry-returns,
}
use sentinel_engine_sovereig.IntegrityController.{
  contains, gate_partial, final_truth_audit, is_degraded, cap_confidence, narrative_of,
  partial_confidence_cap, sweep, inner,
}
use sentinel_engine_sovereig.Examples.Zods.{test_zod, test_zod-IsZod}
use sentinel_engine_sovereig.IntegrityController.Gates.{audit-partial_gated}
use sentinel_engine_sovereig.IntegrityController.Refusals.{audit-advisory_refused}

-- the model fails once and then replies with what has no meaning
abbrev outside : Outside
outside = record {
  client = λ number request. elim number [ zero ↦ none | suc before ↦ some (codes "nothing") ];
  parse = λ text. none;
  zod = test_zod;
  timestamp = "2026-01-01";
}

abbrev failed_names : List String
failed_names = "geography" ∷ "sources" ∷ []

recursive_schema_retry-returns_example :
    (answer : Json) × ((recursive_schema_retry outside "model" "context" "query" no_fields
        failed_names).1
      ≡ ok answer)
    × (Accepts outside.zod answer ⊎ IsAdvisory outside answer)
recursive_schema_retry-returns_example =
    recursive_schema_retry-returns outside "model" "context" "query" no_fields failed_names

abbrev pub own_text : String → Option String
own_text s = some s

abbrev advised_action : Option Json
advised_action =
    inner "executiveAction" (some (build_generic_advisory failed_names no_fields "2026-01-01"))

abbrev action_of : Option Json → Json
action_of none = null
action_of (some action) = action

abbrev advised : Fields
advised =
    member "executiveAction" (action_of advised_action)
      (member "confidence" (num (pos 0)) (member "sources" (arr no_items) no_fields))

advised-action : get_field "executiveAction" advised ≡ advised_action
unfolding get_field build_generic_advisory
advised-action = refl

audit-advisory_refused_example :
    final_truth_audit test_zod own_text (obj advised) (some "ENERGY") (codes "x") ≢ ok null
audit-advisory_refused_example =
    audit-advisory_refused test_zod own_text failed_names no_fields advised "2026-01-01"
      (some "ENERGY") (codes "x") null test_zod-IsZod advised-action

abbrev compliance : Json
compliance = obj (
    member "risk_tier" (str "LIMITED") (
      member "compliance_markers" (arr no_items) (
        member "human_oversight_status" (str "ACTIVE")
          (member "transparency_label" (str "AI") no_fields))))

abbrev telling : String
telling = "Traffic at the port is slow, and two of the three berths are closed."

abbrev action : Fields
action = member "classification" (str "ROUTINE") (
    member "decision" (str "permit") (
      member "rationale" (str "none") (
        member "monotonic_reduction_active" (bool false) (
          member "eu_ai_act_compliance" compliance (
            member "audit_evidence_id" (str "e1") (
              member "narrative" (str telling) (
                member "recommendations" (arr no_items)
                  (member "metrics" (arr no_items) no_fields))))))))

abbrev pub answer_with : ℕ → Fields → Fields
answer_with confidence more =
    member "executiveAction" (obj action)
      (member "confidence" (num (pos confidence)) (member "sources" (arr no_items) more))

-- a model that is sure of itself, on a context with a warning
abbrev warned : Text
warned = codes "[WARNING: External Data Authority MARINE is down]"

abbrev delivered : Fields
delivered = answer_with 500 (member "_verificationPartial" (bool true) no_fields)

audited_warned :
    final_truth_audit test_zod own_text (obj (answer_with 900 no_fields)) none warned
    ≡ ok (obj delivered)
unfolding final_truth_audit validate_inference_response get_schema_for_domain is_degraded contains
    strip get_field gate_partial narrative_of set_field
audited_warned = refl

degraded : is_degraded warned ≡ true
unfolding is_degraded contains strip
degraded = refl

claimed : get_field "confidence" delivered ≡ some (num (pos 500))
unfolding get_field
claimed = refl

audit-partial_gated_example :
    (given : Fields) × (gated : Fields) × (test_zod.safe_parse
        (get_schema_for_domain test_zod "LOGISTICS" true)
        (obj (answer_with 900 no_fields))
      ≡ ok (obj given))
    × (gated ≡ cap_confidence (set_field "_verificationPartial" (bool true) given))
    × (50 ≤ text_length (narrative_of gated))
    × (sweep own_text gated ≡ ok delivered)
    × (pos 500 ≤ℤ pos partial_confidence_cap)
audit-partial_gated_example =
    audit-partial_gated test_zod own_text (obj (answer_with 900 no_fields)) none warned delivered
      (pos 500) audited_warned degraded claimed
