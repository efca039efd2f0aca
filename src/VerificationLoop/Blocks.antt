-- ===== src/VerificationLoop/Blocks.antt =====
-- functions/verification-loop.js with functions/authority-graph/arbitration.js and
-- functions/escalation-engine.js: what the sidecar's two parts make of every verdict.
use sentinel_engine_sovereig.Base.{
  String, true, false, Option, none, some, [], Result, ok, err, >>=-eq-ok, not, ◌&&◌, if◌then◌else◌,
  Bool-cases, inl, inr, ◌≡◌, refl, sym, subst, ◌∙◌, arith,
}
use sentinel_engine_sovereig.EvidenceLocker.{DbFault}
use sentinel_engine_sovereig.AuthorityGraph.Unit as Units
use sentinel_engine_sovereig.AuthorityGraph.Unit.{construct, AuthorityUnit}
use sentinel_engine_sovereig.AuthorityGraph.Arbitration.{
  LegibilityRecord, Status, permit, is_permit,
}
use sentinel_engine_sovereig.AuthorityGraph.Arbitration.Decision.{permit-IsSigned}
use sentinel_engine_sovereig.Escalation.{Engine}
use sentinel_engine_sovereig.Escalation.Refusal.{create_escalation_throws}
use sentinel_engine_sovereig.VerificationLoop.{
  Outside, Params, arbitrate, is_escalated, mark, row_of, bound_verdict, rejection, store_verdict,
  escalate, settle, fail, finish, judged, judge, sidecar_unit, read_verdict, sanitize, user_content,
  launch_verification_sidecar,
}
use sentinel_engine_sovereig.VerificationResults.{
  Verdict, Loop, escalation_failed_blocked, ensure_verification_table, store_verification_result,
}

-- the mark ESCALATION_FAILED_BLOCKED, which only an object keeps
abbrev blocked : Verdict → Verdict
blocked v = if v.is_object then record v { escalation = some escalation_failed_blocked } else v

permit-of : (status : Status) → is_permit status ≡ true → status ≡ permit
permit-of permit h = refl
permit-of status h = absurd (ground (arith, h))

-- No verdict is permitted: with no key service the arbitration denies, also where the prosecutor found
-- nothing.
arbitrate-denies :
    (out : Outside) (p : Params) (v : Verdict) (s : Loop) (judgement : LegibilityRecord)
    → (arbitrate out p v s).1 ≡ ok judgement
    → is_permit judgement.status ≡ false
unfolding arbitrate
arbitrate-denies out p v s judgement h = elim (Bool-cases (is_permit judgement.status)) [
  | inr denied ↦ denied
  | inl permitted ↦
      let (key, signature, there, _, _) =
        permit-IsSigned _ _ _ _ none s.loader judgement h (permit-of judgement.status permitted) in
      absurd (ground (arith, there))
]

escalate-fails :
    (out : Outside) (p : Params) (v : Verdict) (engine : Engine)
    → (escalate out p v engine).1 ≡ blocked v
unfolding escalate mark
escalate-fails out p v engine =
    let (fault, outcome) =
      create_escalation_throws out.ids out.now out.ttl_seconds (rejection out p v) engine in
    elim outcome [
      | inl before ↦ rw (before, escalate) refl
      | inr (row, prepared, after) ↦ rw (after, escalate) refl
    ]

store_verdict-keeps :
    (out : Outside) (p : Params) (s stored : Loop) (left : Engine × Verdict × Option String)
    (v : Verdict)
    → store_verdict out p s left ≡ ok (stored, v)
    → left.1 ≡ v
unfolding store_verdict
store_verdict-keeps out p s stored (engine, v', id) v h =
    let (done, _, end) =
      >>=-eq-ok
        (store_verification_result p.request_id (row_of out p v' id) (bound_verdict v')
          (record s { engine = engine }))
        _ h in
    ground (arith, end)

settle-blocks :
    (out : Outside) (p : Params) (v v' : Verdict) (s stored : Loop)
    → is_escalated p ≡ true
    → settle out p v false s ≡ ok (stored, v')
    → v' ≡ blocked v
unfolding settle
settle-blocks out p v v' s stored high h =
    let taken : (if not false && is_escalated p
          then escalate out p v s.engine
          else (s.engine, v, none))
        ≡ escalate out p v s.engine =
      rw high refl in
    let h' = subst (λ t. store_verdict out p s t ≡ ok (stored, v')) taken h in
    sym (store_verdict-keeps out p s stored (escalate out p v s.engine) v' h')
    ∙ escalate-fails out p v s.engine

fail-none : (out : Outside) (p : Params) (s : Loop) → (fail out p s).1 ≡ none
unfolding fail
fail-none out p s = ground arith

finish-some :
    (out : Outside) (p : Params) (s : Loop) (done : Result DbFault (Loop × Verdict)) (v : Verdict)
    → (finish out p s done).1 ≡ some v
    → (stored : Loop) × (done ≡ ok (stored, v))
unfolding finish
finish-some out p s (ok (stored, v')) v h = (stored, ground (arith, h))
finish-some out p s (err fault) v h = absurd (ground (arith, fail-none out p s, h))

judged-blocks :
    (out : Outside) (p : Params) (v v' : Verdict) (s : Loop)
    (result : Result Units.Fault LegibilityRecord)
    → ((judgement : LegibilityRecord) → result ≡ ok judgement → is_permit judgement.status ≡ false)
    → is_escalated p ≡ true
    → (judged out p v s result).1 ≡ some v'
    → v' ≡ blocked v
unfolding judged
judged-blocks out p v v' s (err fault) denies high h = absurd (ground (arith, fail-none out p s, h))
judged-blocks out p v v' s (ok judgement) denies high h =
    let (stored, settled) = finish-some out p _ _ v' h in
    settle-blocks out p v v' s stored high (rw (denies judgement refl) at settled)

judge-blocks :
    (out : Outside) (p : Params) (found : Option Verdict) (v' : Verdict) (s : Loop)
    → is_escalated p ≡ true
    → (judge out p found s).1 ≡ some v'
    → (v : Verdict) × (found ≡ some v) × (v' ≡ blocked v)
unfolding judge
judge-blocks out p none v' s high h = absurd (ground (arith, fail-none out p s, h))
judge-blocks out p (some v) v' s high h = go (construct (sidecar_unit p) []) refl
  where
    go :
        (x : Result Units.Fault AuthorityUnit)
        → construct (sidecar_unit p) [] ≡ x
        → (w : Verdict) × (some v ≡ some w) × (v' ≡ blocked w)
    go (err fault) e = absurd (ground (arith, fail-none out p s, h, e))
    go (ok unit) e = (
      v,
      refl,
      judged-blocks out p v v' (record s { loader = (arbitrate out p v s).0 })
          (arbitrate out p v s).1 (arbitrate-denies out p v s) high (rw (e, judge) at h),
    )

-- Every verdict on an answer of high impact comes back as blocked: where the impact is HIGH_IMPACT or
-- UTILITY_CRITICAL and there is a security manager, any verdict that the sidecar returns is the
-- prosecutor's with the mark ESCALATION_FAILED_BLOCKED, also where the prosecutor verified the
-- narrative. The arbitration never permits, and the escalation always throws. A reply that is JSON but
-- no object comes back as it is, since nothing can be set on it.
pub launch-blocked :
    (out : Outside) (p : Params) (s : Loop) (v' : Verdict)
    → is_escalated p ≡ true
    → (launch_verification_sidecar out p s).1 ≡ some v'
    → (v : Verdict) × (read_verdict out (out.prosecutor (user_content p.narrative (sanitize out p)))
        ≡ some v)
      × (v' ≡ (if v.is_object then record v { escalation = some escalation_failed_blocked } else v))
unfolding launch_verification_sidecar
launch-blocked out p s v' high h = go (ensure_verification_table s) refl
  where
    go :
        (x : Result DbFault Loop)
        → ensure_verification_table s ≡ x
        → (v : Verdict) × (read_verdict out
              (out.prosecutor (user_content p.narrative (sanitize out p)))
            ≡ some v)
          × (v' ≡ blocked v)
    go (err fault) e = absurd (ground (arith, fail-none out p s, h, e))
    go (ok s1) e = judge-blocks out p _ v' s1 high (rw (e, launch_verification_sidecar) at h)
