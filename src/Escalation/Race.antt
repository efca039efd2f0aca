-- ===== src/Escalation/Race.antt =====
-- functions/escalation-engine.js: two resolutions of one escalation, one after the other and with
-- their database calls interleaved.
use mathlib.Core.Option
use sentinel_engine_sovereig.Base.{
  ℕ, String, false, Option, none, some, ok, ◌≡◌, refl, ◌≢◌, ap, ◌∙◌, arith,
}
use sentinel_engine_sovereig.EvidenceLocker.{execute}
use sentinel_engine_sovereig.Escalation.{Escalation, Engine, lift_db}
use sentinel_engine_sovereig.Escalation.Rows.{resolved-KeepsId, find-update_row}
use sentinel_engine_sovereig.Escalation.Resolve.{
  Verify, Resolution, find_escalation, is_pending, check_resolution, new_status, resolved,
  apply_resolution,
}
use sentinel_engine_sovereig.Escalation.Resolve.Laws.{
  check_resolution_sound, written, conclude-fails,
}

-- the state after the writes of one resolution, where the database answers
apply_resolution-written :
    (drawn first second : String) (r : Resolution) (e : Escalation) (s : Engine)
    → s.locker.failing ≡ none
    → (apply_resolution drawn first second r e s).0 ≡ written drawn r s
unfolding apply_resolution execute
apply_resolution-written drawn first second r e s up =
    let (fault, c) = conclude-fails first second r e (written drawn r s) in
    let answers : lift_db (execute s.locker) ≡ ok tt = simp (up, execute) in
    rw (answers, c, apply_resolution)

new_status-resolves : (decision : String) → is_pending (new_status decision) ≡ false
new_status-resolves decision = ground arith

status-resolved :
    (drawn : String) (r : Resolution) (e : Escalation)
    → (resolved drawn r e).status ≡ new_status r.decision
unfolding resolved
status-resolved drawn r e = refl

resolved_by-resolved :
    (drawn : String) (r : Resolution) (e : Escalation)
    → (resolved drawn r e).resolved_by ≡ some r.authority_id
unfolding resolved
resolved_by-resolved drawn r e = refl

check-resolved :
    (verify : Option Verify) (now : ℕ) (r : Resolution) (s : Engine) (e : Escalation)
    → find_escalation r.escalation_id s.rows ≡ some e
    → is_pending e.status ≡ false
    → (found : Escalation) → check_resolution verify now r s ≢ ok found
check-resolved verify now r s e at settled found h =
    let m = check_resolution_sound verify now r s found h in ground (arith, m.found, m.open_still)

module _ (verify : Option Verify) (now : ℕ) (drawn first second drawn' first' second' : String)
    (r r' : Resolution) (s : Engine) (e e' : Escalation) (same : r'.escalation_id ≡ r.escalation_id)
    (up : s.locker.failing ≡ none) (checked : check_resolution verify now r s ≡ ok e) where
  abbrev after_one : Engine
  after_one = (apply_resolution drawn first second r e s).0

  found_one : find_escalation r.escalation_id after_one.rows ≡ some (resolved drawn r e)
  found_one =
      let m = check_resolution_sound verify now r s e checked in
      rw (apply_resolution-written drawn first second r e s up) (
        find-update_row r.escalation_id (resolved drawn r) s.rows (resolved-KeepsId drawn r)
        ∙ ap (Option.map (resolved drawn r)) m.found)

  found_two :
      find_escalation r.escalation_id
        (apply_resolution drawn' first' second' r' e' after_one).0.rows
      ≡ some (resolved drawn' r' (resolved drawn r e))
  unfolding resolved
  found_two =
      let m = check_resolution_sound verify now r s e checked in
      rw (apply_resolution-written drawn first second r e s up) (
        rw (apply_resolution-written drawn' first' second' r' e' (written drawn r s) up) (
          rw same (
            find-update_row r.escalation_id (resolved drawn' r') _ (resolved-KeepsId drawn' r')
            ∙ ap (Option.map (resolved drawn' r')) (
                find-update_row r.escalation_id (resolved drawn r) s.rows (resolved-KeepsId drawn r)
                ∙ ap (Option.map (resolved drawn r)) m.found))))

  -- Whole calls one after the other: once a resolution has written, every further one is refused and
  -- writes nothing.
  second_is_refused : (found : Escalation) → check_resolution verify now r' after_one ≢ ok found
  second_is_refused found =
      check-resolved verify now r' after_one (resolved drawn r e) (rw same found_one)
        (ground (arith, status-resolved drawn r e, new_status-resolves r.decision)) found

  -- Interleaved calls: where both resolutions read the row before either writes it, both write, and
  -- the second decision stands, whatever the first one was. No statement looks at the status again.
  pub second_overwrites :
      check_resolution verify now r' s ≡ ok e'
      → (found : Escalation) × (find_escalation r.escalation_id
            (apply_resolution drawn' first' second' r' e' after_one).0.rows
          ≡ some found)
        × (found.status ≡ new_status r'.decision)
        × (found.resolved_by ≡ some r'.authority_id)
  second_overwrites checked' = (
    resolved drawn' r' (resolved drawn r e),
    found_two,
    status-resolved drawn' r' _,
    resolved_by-resolved drawn' r' _,
  )
