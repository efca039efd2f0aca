-- ===== src/IntegrityController.antt =====
-- functions/integrity-controller.js: finalTruthAudit, the last gate of an answer. `tokenize` is
-- tokenizePII for the tenant (SecurityManager.Pii); zod is a parameter.
pub mod Laws
pub mod Gates
pub mod Sweep
pub mod Refusals
use sentinel_engine_sovereig.Base.{
  ℕ, zero, suc, String, Bool, true, false, Option, none, some, List, [], ◌∷◌, Result, ok, err,
  ◌>>=◌, ltb, ◌==◌, or_text, if◌then◌else◌,
}
use sentinel_engine_sovereig.Base.Int.{pos, ltb_ℤ}
use sentinel_engine_sovereig.SecurityManager.Patterns.{Text, codes, strip}
use sentinel_engine_sovereig.SecurityManager.Providers.{text_length}
use sentinel_engine_sovereig.Schemas.Values as Values
use sentinel_engine_sovereig.Schemas.Values.{
  Json, Items, Fields, bool, num, str, arr, obj, no_items, item, get_field, set_field,
}
use sentinel_engine_sovereig.Schemas.{Zod, Errors, Validation, validate_inference_response}

pub data AuditCode : Type 0 where
  schema_validation_failed integrity_gate_rejection : AuditCode

pub data Fault : Type 0 where
  -- TruthAuditError, which the handler answers with 422
  truth_audit : List String → Errors → AuditCode → Fault
  -- a TypeError, and what tokenizePII throws
  type_error tokenization : Fault

-- text.includes(needle)
unfoldable pub contains : Text → Text → Bool
contains needle [] = elim needle [ [] ↦ true | c ∷ rest ↦ false ]
contains needle (c ∷ text) = elim (strip needle (c ∷ text)) [
  | some rest ↦ true
  | none ↦ contains needle text
]

unfoldable pub is_degraded : Text → Bool
is_degraded context = contains (codes "[WARNING: External Data Authority") context

-- PARTIAL_CONFIDENCE_CAP, 0.50
abbrev pub partial_confidence_cap : ℕ
partial_confidence_cap = 500

unfoldable pub cap_confidence : Fields → Fields
cap_confidence members = elim (get_field "confidence" members) [
  | none ↦ members
  | some value ↦ elim value [
    | num n ↦
        if ltb_ℤ (pos partial_confidence_cap) n
        then set_field "confidence" (num (pos partial_confidence_cap)) members
        else members
    | _ ↦ members
  ]
]

-- object?.[name] of an object, and none of any other value
abbrev pub inner : String → Option Json → Option Json
inner name none = none
inner name (some value) = elim value [ obj members ↦ get_field name members | _ ↦ none ]

-- a field that is a text
abbrev pub text_of : Option Json → String
text_of none = ""
text_of (some value) = elim value [ str s ↦ s | _ ↦ "" ]

-- audited.executiveAction?.narrative || ''
unfoldable pub narrative_of : Fields → String
narrative_of members = text_of (inner "narrative" (get_field "executiveAction" members))

-- what a partial answer goes through
unfoldable pub gate_partial : Fields → Result Fault Fields
unfolding cap_confidence
gate_partial members =
    let capped = cap_confidence (set_field "_verificationPartial" (bool true) members) in
    if ltb (text_length (narrative_of capped)) 50
    then err (
        truth_audit ("executiveAction" ∷ [])
          ((
            "executiveAction",
            "Narrative too short under partial data state. Minimum 50 chars required." ∷ [],
          )
            ∷ [])
          integrity_gate_rejection)
    else ok capped

-- object[name] = await tokenizePII(object[name]), where it is a text that is not empty
unfoldable pub tokenize_field : (String → Option String) → String → Fields → Result Fault Fields
tokenize_field tokenize name members = elim (text_of (get_field name members) == "") [
  | true ↦ ok members
  | false ↦ elim (tokenize (text_of (get_field name members))) [
    | none ↦ err tokenization
    | some token ↦ ok (set_field name (str token) members)
  ]
]

-- the loop over the recommendations
unfoldable pub tokenize_actions : (String → Option String) → Items → Result Fault Items
unfolding tokenize_field
tokenize_actions tokenize no_items = ok no_items
tokenize_actions tokenize (item value rest) = elim value [
  | obj members ↦ tokenize_field tokenize "action" members >>= λ members'.
      tokenize_actions tokenize rest >>= λ rest'. ok (item (obj members') rest')
  | other ↦ tokenize_actions tokenize rest >>= λ rest'. ok (item other rest')
]

tokenize_recommendations : (String → Option String) → Fields → Option Json → Result Fault Fields
unfolding tokenize_actions
tokenize_recommendations tokenize members none = ok members
tokenize_recommendations tokenize members (some value) = elim value [
  | arr items ↦ tokenize_actions tokenize items >>= λ items'.
      ok (set_field "recommendations" (arr items') members)
  | _ ↦ ok members
]

pub tokenize_executive : (String → Option String) → Fields → Option Json → Result Fault Fields
unfolding tokenize_recommendations
tokenize_executive tokenize members none = ok members
tokenize_executive tokenize members (some value) = elim value [
  | obj action ↦ tokenize_field tokenize "narrative" action >>= λ told.
      tokenize_recommendations tokenize told (get_field "recommendations" told) >>= λ swept.
      ok (set_field "executiveAction" (obj swept) members)
  | _ ↦ ok members
]

-- the sweep over the texts of an answer
unfoldable pub sweep : (String → Option String) → Fields → Result Fault Fields
unfolding tokenize_executive
sweep tokenize members = tokenize_field tokenize "narrative" members >>= λ told.
    tokenize_executive tokenize told (get_field "executiveAction" told)

-- what follows the validation, of an object as zod returns it for these schemas
unfoldable pub audit_members : (String → Option String) → Bool → Fields → Result Fault Json
unfolding sweep
audit_members tokenize is_partial members =
    (if is_partial then gate_partial members else ok members) >>= λ gated.
    sweep tokenize gated >>= λ swept. ok (obj swept)

-- the result of a validation that succeeded
unfoldable pub audit_value : (String → Option String) → Bool → Json → Result Fault Json
unfolding audit_members
audit_value tokenize is_partial value = elim value [
  | obj members ↦ audit_members tokenize is_partial members
  | other ↦ ok other
]

audit_result : (String → Option String) → Bool → Validation → Option Json → Result Fault Json
unfolding audit_value
audit_result tokenize is_partial v none =
    err (truth_audit v.failed_modules v.errors schema_validation_failed)
audit_result tokenize is_partial v (some value) = audit_value tokenize is_partial value

audit_validation :
    (String → Option String) → Bool → Result Values.Fault Validation → Result Fault Json
unfolding audit_result
audit_validation tokenize is_partial (err fault) = err type_error
audit_validation tokenize is_partial (ok v) =
    audit_result tokenize is_partial v (if v.valid then v.result else none)

-- finalTruthAudit, with the domain and the context that it is given
unfoldable pub final_truth_audit :
    Zod → (String → Option String) → Json → Option String → Text → Result Fault Json
unfolding audit_validation
final_truth_audit zod tokenize answer industry_domain context =
    let domain = or_text industry_domain "LOGISTICS" in
    let is_partial = is_degraded context in
    audit_validation tokenize is_partial (validate_inference_response zod answer domain is_partial)
