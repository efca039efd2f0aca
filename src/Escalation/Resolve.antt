-- ===== src/Escalation/Resolve.antt =====
-- functions/escalation-engine.js: resolveEscalation, in the two parts between which other calls can
-- run: what it reads and checks, and what it writes.
pub mod Laws
use sentinel_engine_sovereig.Base.{
  ℕ, String, Bool, true, false, Option, none, some, List, [], ◌∷◌, ◌++◌, not, ◌&&◌, Result, ok, err,
  ◌>>=◌, ◌>>◌, truthy, or_null, or_text, ltb, ◌==◌, if◌then◌else◌,
}
use sentinel_engine_sovereig.EvidenceLocker.{get_sql, execute}
use sentinel_engine_sovereig.EvidenceLocker.Callers.{event_object}
use sentinel_engine_sovereig.Escalation.{
  Status, pending, override_released, confirmed_blocked, EngineFault, webauthn_verification_failed,
  not_found, has_expired, already_resolved, EvidenceFragment, Escalation, escalation_resolved,
  Engine, lift_db, and_then, record_in,
}

-- verifyAuthentication of the WebAuthn provider; what it throws is read as a refusal
abbrev pub Verify : Type 0
Verify = String → Option String → Result EngineFault Bool

pub record Resolution : Type 0 where
  pub escalation_id : String
  pub decision : String
  pub authority_id : String
  pub coaching_annotation : Option String
  pub webauthn_assertion : Option String

pub record Outcome : Type 0 where
  pub status : Status
  pub released_payload : Option EvidenceFragment

-- Step 1: the assertion, if there is a provider
unfoldable pub authenticate : Option Verify → Resolution → Result EngineFault (Unit {0})
authenticate none r = ok tt
authenticate (some verify) r = elim (verify r.authority_id r.webauthn_assertion) [
  | ok valid ↦ if valid then ok tt else err webauthn_verification_failed
  | err fault ↦ err webauthn_verification_failed
]

unfoldable pub find_escalation : String → List Escalation → Option Escalation
find_escalation id [] = none
find_escalation id (r ∷ rs) = if r.escalation_id == id then some r else find_escalation id rs

abbrev pub is_pending : Status → Bool
is_pending pending = true
is_pending _ = false

check_found : ℕ → Option Escalation → Result EngineFault Escalation
check_found now none = err not_found
check_found now (some e) =
    if not (is_pending e.status)
    then err (already_resolved e.status)
    else if ltb e.ttl_expires_at now
    then err has_expired
    else ok e

-- Steps 1 and 2: nothing is written
unfoldable pub check_resolution :
    Option Verify → ℕ → Resolution → Engine → Result EngineFault Escalation
unfolding check_found
check_resolution verify now r s = do
  lift_db (get_sql s.locker)
  authenticate verify r
  lift_db (execute s.locker)
  check_found now (find_escalation r.escalation_id s.rows)

abbrev pub new_status : String → Status
new_status decision =
    if decision == "OVERRIDE_RELEASE" then override_released else confirmed_blocked

-- the columns that the UPDATE sets
unfoldable pub resolved : String → Resolution → Escalation → Escalation
resolved drawn r e = record e {
  status = new_status r.decision;
  resolved_by = some r.authority_id;
  coaching_annotation = or_null r.coaching_annotation;
  webauthn_assertion_id = some (or_text r.webauthn_assertion drawn);
}

-- UPDATE … WHERE escalation_id = $1
unfoldable pub update_row : String → (Escalation → Escalation) → List Escalation → List Escalation
update_row id f [] = []
update_row id f (r ∷ rs) = (if r.escalation_id == id then f r else r) ∷ update_row id f rs

unfoldable pub outcome_of : Resolution → Escalation → Outcome
outcome_of r e = record {
  status = new_status r.decision;
  released_payload = if r.decision == "OVERRIDE_RELEASE" then some e.evidence_fragment else none;
}

-- Steps 4 and 5, and the broadcast
unfoldable pub conclude :
    String → String → Resolution → Escalation → Engine → Engine × Result EngineFault Outcome
conclude first second r e s =
    let name =
      if r.decision == "OVERRIDE_RELEASE" then "HUMAN_OVERRIDE" else "HUMAN_CONFIRM_REJECTION" in
    let event = event_object e.request_id name e.tenant_id r.decision (some r.authority_id) in
    let coaching =
      event_object e.request_id "COACHING_ANNOTATION" e.tenant_id (or_text r.coaching_annotation "")
        (some r.authority_id) in
    and_then (record_in first event s) λ s1.
      and_then (if truthy r.coaching_annotation then record_in second coaching s1 else (s1, ok tt))
        λ s2. (
          record s2 { sent = s2.sent ++ escalation_resolved e.escalation_id ∷ [] },
          ok (outcome_of r e),
        )

-- Step 3 and what follows, for the row that was read before: the UPDATE does not look at its status
unfoldable pub apply_resolution :
    String
    → String
    → String
    → Resolution
    → Escalation
    → Engine
    → Engine × Result EngineFault Outcome
unfolding conclude outcome_of
apply_resolution drawn first second r e s = elim (lift_db (execute s.locker)) [
  | err fault ↦ (s, err fault)
  | ok _ ↦
      conclude first second r e
        (record s { rows = update_row r.escalation_id (resolved drawn r) s.rows })
]

unfoldable pub resolve_escalation :
    Option Verify
    → ℕ
    → String
    → String
    → String
    → Resolution
    → Engine
    → Engine × Result EngineFault Outcome
unfolding check_resolution apply_resolution
resolve_escalation verify now drawn first second r s = elim (check_resolution verify now r s) [
  | err fault ↦ (s, err fault)
  | ok e ↦ apply_resolution drawn first second r e s
]
