-- ===== src/Escalation/Resolve/Laws.antt =====
-- functions/escalation-engine.js: who can resolve an escalation, and what a resolution changes.
use sentinel_engine_sovereig.Base.{
  ℕ, String, true, Option, none, some, Result, ok, err, >>=-eq-ok, ◌==◌, if◌then◌else◌, ◌≡◌, refl,
  ◌⊎◌, inl, inr, ap, ◌≤◌, arith,
}
use sentinel_engine_sovereig.EvidenceLocker.{get_sql, execute}
use sentinel_engine_sovereig.Escalation.{pending, EngineFault, Escalation, Engine, lift_db}
use sentinel_engine_sovereig.Escalation.Refusal.{record_in-refused}
use sentinel_engine_sovereig.Escalation.Resolve.{
  Verify, Resolution, authenticate, find_escalation, check_found, check_resolution, resolved,
  update_row, conclude, apply_resolution, resolve_escalation,
}

-- A resolution goes on to write only for a row that is pending and whose time is not over, and, where
-- the engine has a provider, after that verified the key. The program builds its engines without one.
pub record MayResolve (verify : Option Verify) (now : ℕ) (r : Resolution) (s : Engine)
    (e : Escalation) : Type 0 where
  pub authentic :
      (verify ≡ none)
      ⊎ ((v : Verify) × (verify ≡ some v) × (v r.authority_id r.webauthn_assertion ≡ ok true))
  pub found : find_escalation r.escalation_id s.rows ≡ some e
  pub open_still : e.status ≡ pending
  pub in_time : now ≤ e.ttl_expires_at

authenticate_sound :
    (verify : Option Verify) (r : Resolution)
    → authenticate verify r ≡ ok tt
    → (verify ≡ none)
      ⊎ ((v : Verify) × (verify ≡ some v) × (v r.authority_id r.webauthn_assertion ≡ ok true))
unfolding authenticate
authenticate_sound none r h = inl refl
authenticate_sound (some v) r h = inr (v, refl, ground arith)

check_found_sound :
    (now : ℕ) (o : Option Escalation) (e : Escalation)
    → check_found now o ≡ ok e
    → (o ≡ some e) × (e.status ≡ pending) × (now ≤ e.ttl_expires_at)
unfolding check_found
check_found_sound now none e h = absurd (ground arith)
check_found_sound now (some f) e h =
    let same : f ≡ e = ground arith in (ap some same, ground arith, ground arith)

pub check_resolution_sound :
    (verify : Option Verify) (now : ℕ) (r : Resolution) (s : Engine) (e : Escalation)
    → check_resolution verify now r s ≡ ok e
    → MayResolve verify now r s e
unfolding check_resolution
check_resolution_sound verify now r s e h =
    let (_, _, h1) = >>=-eq-ok (lift_db (get_sql s.locker)) _ h in
    let (_, authentic, h2) = >>=-eq-ok (authenticate verify r) _ h1 in
    let (_, _, h3) = >>=-eq-ok (lift_db (execute s.locker)) _ h2 in
    let (found, p, t) = check_found_sound now (find_escalation r.escalation_id s.rows) e h3 in
    record {
      authentic = authenticate_sound verify r authentic;
      found = found;
      open_still = p;
      in_time = t;
    }

pub conclude-fails :
    (first second : String) (r : Resolution) (e : Escalation) (s : Engine)
    → (fault : EngineFault) × (conclude first second r e s ≡ (s, err fault))
unfolding conclude
conclude-fails first second r e s =
    let (fault, refused) =
      record_in-refused first e.request_id
        (if r.decision == "OVERRIDE_RELEASE" then "HUMAN_OVERRIDE" else "HUMAN_CONFIRM_REJECTION")
        e.tenant_id r.decision (some r.authority_id) s in
    (fault, rw (refused, conclude))

-- the state that a resolution leaves once it was checked, and that it throws all the same
abbrev pub written : String → Resolution → Engine → Engine
written drawn r s = record s { rows = update_row r.escalation_id (resolved drawn r) s.rows }

apply_resolution-cases :
    (drawn first second : String) (r : Resolution) (e : Escalation) (s : Engine)
    → (fault : EngineFault) × ((apply_resolution drawn first second r e s ≡ (s, err fault))
        ⊎ (apply_resolution drawn first second r e s ≡ (written drawn r s, err fault)))
unfolding apply_resolution
apply_resolution-cases drawn first second r e s = go (lift_db (execute s.locker)) refl
  where
    go :
        (x : Result EngineFault (Unit {0}))
        → lift_db (execute s.locker) ≡ x
        → (fault : EngineFault) × ((apply_resolution drawn first second r e s ≡ (s, err fault))
            ⊎ (apply_resolution drawn first second r e s ≡ (written drawn r s, err fault)))
    go (err fault) p = (fault, inl (rw (p, apply_resolution)))
    go (ok u) p =
        let (fault, c) = conclude-fails first second r e (written drawn r s) in
        (fault, inr (rw (p, c, apply_resolution)))

-- A resolution never returns. It throws and changes nothing; or the row was pending and in time, that
-- one row is written, and it throws after that. Where it is written and the engine has a provider, that
-- verified the key; of an engine without one, as the program builds it, nothing is said of the key.
pub resolve_escalation_throws :
    (verify : Option Verify) (now : ℕ) (drawn first second : String) (r : Resolution) (s : Engine)
    → (fault : EngineFault) × ((resolve_escalation verify now drawn first second r s
          ≡ (s, err fault))
        ⊎ ((e : Escalation) × MayResolve verify now r s e
            × (resolve_escalation verify now drawn first second r s
                ≡ (written drawn r s, err fault))))
unfolding resolve_escalation
resolve_escalation_throws verify now drawn first second r s =
    go (check_resolution verify now r s) refl
  where
    go :
        (x : Result EngineFault Escalation)
        → check_resolution verify now r s ≡ x
        → (fault : EngineFault) × ((resolve_escalation verify now drawn first second r s
              ≡ (s, err fault))
            ⊎ ((e : Escalation) × MayResolve verify now r s e
                × (resolve_escalation verify now drawn first second r s
                    ≡ (written drawn r s, err fault))))
    go (err fault) p = (fault, inl (rw (p, resolve_escalation)))
    go (ok e) p =
        let (fault, c) = apply_resolution-cases drawn first second r e s in
        (
          fault,
          elim c [
            | inl k ↦ inl (rw (p, k, resolve_escalation))
            | inr k ↦
                inr (e, check_resolution_sound verify now r s e p, rw (p, k, resolve_escalation))
          ],
        )
