-- ===== src/Inference/Outcomes.antt =====
-- functions/index.js with functions/integrity-controller.js, functions/schemas.js and
-- functions/verification-loop.js: what becomes of an answer after its audit.
pub mod Malformed
use sentinel_engine_sovereig.Base.{
  ℕ, zero, suc, ◌+◌, ◌≤◌, String, Bool, true, false, Option, none, some, [], ◌∷◌, Result, ok, err,
  >>=-eq-ok, ◌==◌, eq_iff, Bool-cases, Option-cases, inl, inr, ◌≡◌, ◌≢◌, refl, ap, sym, subst, ◌∙◌,
  arith,
}
use sentinel_engine_sovereig.SecurityManager.Patterns.{Text, codes}
use sentinel_engine_sovereig.Replies.{clean}
use sentinel_engine_sovereig.Schemas.Values.{
  Json, Fields, null, bool, num, str, arr, obj, no_fields, member, get_field,
}
use sentinel_engine_sovereig.Base.Int.{pos}
use sentinel_engine_sovereig.Schemas.{is_confidence}
use sentinel_engine_sovereig.RecursiveRetry.{build_generic_advisory}
use sentinel_engine_sovereig.IntegrityController as Audit
use sentinel_engine_sovereig.IntegrityController.{inner, final_truth_audit}
use sentinel_engine_sovereig.IntegrityController.Laws.{IsZod}
use sentinel_engine_sovereig.IntegrityController.Refusals.{audit-advisory_refused, audit-IsObject}
use sentinel_engine_sovereig.IntegrityController.Gates.{audit-drops_top}
use sentinel_engine_sovereig.IntegrityController.Sweep.{get_field-set_ne}
use sentinel_engine_sovereig.VerificationLoop as Sidecar
use sentinel_engine_sovereig.VerificationLoop.{launch_verification_sidecar}
use sentinel_engine_sovereig.VerificationResults.{Loop}
use sentinel_engine_sovereig.Inference.{
  Outside, Question, Delivered, parse_advisory, read_answer, generate_from, is_unsure,
  checked_confidence, replaced, with_top, set_authority, without_field, gate, lift_audit, conclude,
  max_attempts, infer,
}
use sentinel_engine_sovereig.Inference.Responses.{
  Response, success, Request, advised, verification_status, respond, respond_members, answered,
}

lift_audit-eq-ok :
    {A : Type 0} (result : Result Audit.Fault A) (a : A) → lift_audit result ≡ ok a → result ≡ ok a
unfolding lift_audit
lift_audit-eq-ok (ok b) a h = ground (arith, h)
lift_audit-eq-ok (err fault) a h = absurd (ground (arith, h))

-- what was audited, of an answer that is delivered
conclude-eq-ok :
    (out : Outside) (q : Question) (value : Json) (d : Delivered)
    → conclude out q value ≡ ok d
    → (members : Fields) × (value ≡ obj members)
      × (final_truth_audit out.retry.zod out.tokenize
            (obj (gate (with_top q.data_authority members)))
            (some q.industry_domain)
            (codes q.context_payload)
          ≡ ok d.answer)
unfolding conclude
conclude-eq-ok out q (obj members) d h =
    let (answer, audited, end) =
      >>=-eq-ok
        (lift_audit (
          final_truth_audit out.retry.zod out.tokenize
            (obj (gate (with_top q.data_authority members))) (some q.industry_domain)
            (codes q.context_payload)))
        _ h in
    let same : answer ≡ d.answer = ground (arith, end) in
    (members, refl, lift_audit-eq-ok _ answer audited ∙ ap ok same)
conclude-eq-ok out q null d h = absurd (ground (arith, h))
conclude-eq-ok out q (bool b) d h = absurd (ground (arith, h))
conclude-eq-ok out q (num n) d h = absurd (ground (arith, h))
conclude-eq-ok out q (str s) d h = absurd (ground (arith, h))
conclude-eq-ok out q (arr items) d h = absurd (ground (arith, h))

-- an answer that is delivered is an object with no narrative and no metrics at its top
delivered-top :
    (out : Outside) (q : Question) (d : Delivered)
    → IsZod out.retry.zod
    → (infer out q).1 ≡ ok d
    → (members : Fields) × (d.answer ≡ obj members)
      × (get_field "narrative" members ≡ none)
      × (get_field "metrics" members ≡ none)
unfolding infer
delivered-top out q d laws h =
    let (value, _, concluded) = >>=-eq-ok (generate_from out q max_attempts 0).1 _ h in
    let (given, _, audited) = conclude-eq-ok out q value d concluded in
    let answer = obj (gate (with_top q.data_authority given)) in
    let (members, is) =
      audit-IsObject out.retry.zod out.tokenize answer d.answer (some q.industry_domain)
        (codes q.context_payload) laws audited in
    let (narrative, metrics) =
      audit-drops_top out.retry.zod out.tokenize answer (some q.industry_domain)
        (codes q.context_payload) members laws (audited ∙ ap ok is) in
    (members, is, narrative, metrics)

respond-silent :
    (sidecar : Sidecar.Outside) (r : Request) (q : Question) (d : Delivered) (members : Fields)
    (s : Loop)
    → get_field "narrative" members ≡ none
    → respond sidecar r q d members s ≡ record {
      loop = s;
      launched = false;
      response = answered members (d.query_classification == "SENSITIVE") none;
    }
unfolding respond advised respond_members
respond-silent sidecar r q d members s silent =
    let bare : advised r.is_resilience_mode members ≡ members = ground (arith, silent) in
    rw (bare, respond) (ground (arith, silent))

answered-none :
    (members : Fields) (sensitive : Bool)
    → answered members sensitive none
      ≡ success members (verification_status members sensitive none) none
unfolding answered
answered-none members true = refl
answered-none members false = refl

-- No answer that passes the last audit is verified: for a delivered answer, sensitive or not and of
-- any impact, the second model is not launched, nothing is escalated, and the response is the answer
-- with no verdict. The audit drops the narrative at the top, without which the handler skips the
-- verification.
pub respond-unverified :
    (out : Outside) (q : Question) (d : Delivered) (sidecar : Sidecar.Outside) (r : Request)
    (members : Fields) (s : Loop)
    → IsZod out.retry.zod
    → (infer out q).1 ≡ ok d
    → d.answer ≡ obj members
    → respond sidecar r q d members s ≡ record {
      loop = s;
      launched = false;
      response =
          success members
            (verification_status members (d.query_classification == "SENSITIVE") none)
            none;
    }
respond-unverified out q d sidecar r members s laws delivered is =
    let (members', is', silent, _) = delivered-top out q d laws delivered in
    let same : members' ≡ members = ground (arith, is, is') in
    respond-silent sidecar r q d members s (subst (λ m. get_field "narrative" m ≡ none) same silent)
    ∙ ap (λ (x : Response). record { loop = s; launched = false; response = x })
        (answered-none members (d.query_classification == "SENSITIVE"))
