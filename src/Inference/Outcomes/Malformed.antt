-- ===== src/Inference/Outcomes/Malformed.antt =====
-- functions/index.js with functions/integrity-controller.js: what becomes of a question to which the
-- model replies with no JSON.
use sentinel_engine_sovereig.Base.{
  ℕ, zero, suc, ◌+◌, ◌≤◌, String, false, Option, none, some, [], ◌∷◌, ok, >>=-eq-ok, ◌==◌, eq_iff,
  Bool-cases, Option-cases, inl, inr, ◌≡◌, ◌≢◌, refl, ap, sym, subst, ◌∙◌, arith,
}
use sentinel_engine_sovereig.SecurityManager.Patterns.{Text, codes}
use sentinel_engine_sovereig.Replies.{clean}
use sentinel_engine_sovereig.Schemas.Values.{Json, Fields, num, str, no_fields, member, get_field}
use sentinel_engine_sovereig.Base.Int.{pos}
use sentinel_engine_sovereig.Schemas.{is_confidence}
use sentinel_engine_sovereig.RecursiveRetry.{build_generic_advisory}
use sentinel_engine_sovereig.IntegrityController.{inner}
use sentinel_engine_sovereig.IntegrityController.Laws.{IsZod}
use sentinel_engine_sovereig.IntegrityController.Refusals.{audit-advisory_refused}
use sentinel_engine_sovereig.IntegrityController.Sweep.{get_field-set_ne}
use sentinel_engine_sovereig.Inference.{
  Outside, Question, Delivered, parse_advisory, read_answer, generate_from, is_unsure,
  checked_confidence, replaced, with_top, set_authority, without_field, gate, conclude,
  max_attempts, infer,
}
use sentinel_engine_sovereig.Inference.Outcomes.{conclude-eq-ok}

get_field-without_ne :
    (name read : String) (members : Fields)
    → (name == read) ≡ false
    → get_field read (without_field name members) ≡ get_field read members
unfolding get_field
get_field-without_ne name read no_fields apart = refl
get_field-without_ne name read (member key value rest) apart = ground (
  arith,
  get_field-without_ne name read rest apart,
  eq_iff key name,
  eq_iff key read,
  eq_iff name read,
  apart,
)

set_authority-keeps :
    (authority : Option String) (members : Fields)
    → get_field "executiveAction" (set_authority authority members)
      ≡ get_field "executiveAction" members
unfolding set_authority
set_authority-keeps none members =
    get_field-without_ne "dataAuthority" "executiveAction" members refl
set_authority-keeps (some authority) members =
    get_field-set_ne "dataAuthority" "executiveAction" (str authority) members refl

with_top-keeps :
    (authority : Option String) (members : Fields)
    → get_field "executiveAction" (with_top authority members) ≡ get_field "executiveAction" members
unfolding with_top
with_top-keeps authority members =
    set_authority-keeps authority _
    ∙ get_field-set_ne "metrics" "executiveAction" _ _ refl
    ∙ get_field-set_ne "narrative" "executiveAction" _ members refl

checked_confidence-keeps :
    (members : Fields)
    → get_field "executiveAction" (checked_confidence members) ≡ get_field "executiveAction" members
unfolding checked_confidence
checked_confidence-keeps members =
    elim (Bool-cases (is_confidence (get_field "confidence" members))) [
      | inl good ↦ rw (good, checked_confidence) refl
      | inr bad ↦
          rw (bad, checked_confidence)
            (get_field-set_ne "confidence" "executiveAction" (num (pos 0)) members refl)
    ]

replaced-keeps :
    (members : Fields)
    → get_field "executiveAction" (replaced members) ≡ get_field "executiveAction" members
unfolding replaced
replaced-keeps members =
    get_field-set_ne "metrics" "executiveAction" _ _ refl
    ∙ get_field-set_ne "narrative" "executiveAction" _ members refl

gate-keeps :
    (members : Fields)
    → get_field "executiveAction" (gate members) ≡ get_field "executiveAction" members
unfolding gate
gate-keeps members = elim (Bool-cases (is_unsure 700 (checked_confidence members))) [
  | inl unsure ↦
      rw (unsure, gate)
        (replaced-keeps (checked_confidence members) ∙ checked_confidence-keeps members)
  | inr sure ↦ rw (sure, gate) (checked_confidence-keeps members)
]

conclude-advisory :
    (out : Outside) (q : Question) (d : Delivered)
    → IsZod out.retry.zod
    → conclude out q (parse_advisory out) ≢ ok d
unfolding build_generic_advisory
conclude-advisory out q d laws h =
    let (members, is, audited) = conclude-eq-ok out q (parse_advisory out) d h in
    audit-advisory_refused out.retry.zod out.tokenize ("executiveAction" ∷ [])
      (member "parse" (str out.parse_error) no_fields) (gate (with_top q.data_authority members))
      out.retry.timestamp (some q.industry_domain) (codes q.context_payload) d.answer laws
      (gate-keeps (with_top q.data_authority members)
        ∙ with_top-keeps q.data_authority members
        ∙ ap (λ (a : Json). inner "executiveAction" (some a)) (sym is))
      audited

-- the model is asked for the whole answer at most twice, and none of the replies is JSON
abbrev Garbled : Outside → Type 0
Garbled out =
    (attempt : ℕ) (reply : Text)
    → attempt ≤ 1
    → out.generate attempt ≡ some reply
    → out.retry.parse (clean reply) ≡ none

generate_from-malformed :
    (out : Outside) (q : Question) (left attempt : ℕ)
    → Garbled out
    → attempt + left ≤ 2
    → ((generate_from out q left attempt).0 ≤ left)
      × ((value : Json)
          → (generate_from out q left attempt).1 ≡ ok value
          → parse_advisory out ≡ value)
unfolding generate_from read_answer
generate_from-malformed out q zero attempt malformed few =
    (omega arith, λ value h. ground (arith, h))
generate_from-malformed out q (suc left) attempt malformed few =
    elim (Option-cases (out.generate attempt)) [
      | inl failed ↦
          (rw (failed, generate_from) (omega arith), λ value h. absurd (ground (arith, h, failed)))
      | inr (reply, replied) ↦
          let caught : read_answer out q reply ≡ (0, none) =
            rw (malformed attempt reply (omega (arith, few)) replied, read_answer) refl in
          let (bound, same) =
            generate_from-malformed out q left (suc attempt) malformed (omega (arith, few)) in
          (
            rw (replied, generate_from)
                (rw (ap (λ (r : ℕ × Option Json). r.1) caught)
                  (omega (arith, bound, ap (λ (r : ℕ × Option Json). r.0) caught))),
            λ value h. same value (
                rw (ap (λ (r : ℕ × Option Json). r.1) caught) at
                  (rw (replied, generate_from) at h)),
          )
    ]

-- Where no reply of the model to the first two attempts is JSON, the model is asked at most twice, and
-- nothing is delivered as an answer, the advisory included.
pub malformed-undelivered :
    (out : Outside) (q : Question) (d : Delivered)
    → IsZod out.retry.zod
    → ((attempt : ℕ) (reply : Text)
        → attempt ≤ 1
        → out.generate attempt ≡ some reply
        → out.retry.parse (clean reply) ≡ none)
    → ((infer out q).0 ≤ 2) × ((infer out q).1 ≢ ok d)
unfolding infer
malformed-undelivered out q d laws malformed =
    let (bound, same) = generate_from-malformed out q max_attempts 0 malformed (omega arith) in
    (
      bound,
      λ h.
          let (value, generated, concluded) =
            >>=-eq-ok (generate_from out q max_attempts 0).1 _ h in
          conclude-advisory out q d laws
            (subst (λ v. conclude out q v ≡ ok d) (sym (same value generated)) concluded),
    )
