-- ===== src/Escalation/Refusal.antt =====
-- functions/escalation-engine.js with functions/evidence-locker.js: the events of the engine under
-- the field names that recordEvent reads.
use sentinel_engine_sovereig.Base.{
  ℕ, String, Option, some, [], ◌∷◌, ◌++◌, Result, ok, err, ◌≡◌, refl, ◌⊎◌, inl, inr,
}
use sentinel_engine_sovereig.EvidenceLocker.{Db, Object, record_event}
use sentinel_engine_sovereig.EvidenceLocker.Callers.{event_object, event_object-refused}
use sentinel_engine_sovereig.Escalation.{
  EngineFault, db_fault, Engine, Escalation, Ids, RejectionEvent, record_in, create_escalation,
  announce, prepare,
}

-- No event of the engine is ever recorded, and the engine does not change.
pub record_in-refused :
    (id request_id type_name tenant_id payload : String) (authority : Option String) (s : Engine)
    → (fault : EngineFault) × (record_in id
          (event_object request_id type_name tenant_id payload authority)
          s
        ≡ (s, err fault))
unfolding record_in
record_in-refused id request_id type_name tenant_id payload authority s =
    go (record_event id event s.locker) refl
  where
    event : Object
    event = event_object request_id type_name tenant_id payload authority

    go :
        (x : Result _ (Db × String))
        → record_event id event s.locker ≡ x
        → (fault : EngineFault) × (record_in id event s ≡ (s, err fault))
    go (ok r) e =
        absurd
          (event_object-refused id request_id type_name tenant_id payload authority s.locker r e)
    go (err fault) e = (db_fault fault, rw (e, record_in))

announce-fails :
    (ids : Ids) (row : Escalation) (verdict : String) (s : Engine)
    → (fault : EngineFault) × (announce ids row verdict s ≡ (s, err fault))
unfolding announce
announce-fails ids row verdict s =
    let (fault, e) =
      record_in-refused ids.first row.request_id "PROSECUTOR_REJECTION" row.tenant_id verdict
        (some row.authority_id) s in
    (fault, rw (e, announce))

-- A call that creates an escalation never returns, whatever the state of the database. It throws
-- before the INSERT and changes nothing, or after it, and then the request waits in the table with
-- no event recorded and no dashboard told.
pub create_escalation_throws :
    (ids : Ids) (now ttl_seconds : ℕ) (e : RejectionEvent) (s : Engine)
    → (fault : EngineFault) × ((create_escalation ids now ttl_seconds e s ≡ (s, err fault))
        ⊎ ((row : Escalation) × (prepare ids now ttl_seconds e s ≡ ok row)
            × (create_escalation ids now ttl_seconds e s
                ≡ (record s { rows = s.rows ++ row ∷ [] }, err fault))))
unfolding create_escalation
create_escalation_throws ids now ttl_seconds e s = go (prepare ids now ttl_seconds e s) refl
  where
    go :
        (x : Result EngineFault Escalation)
        → prepare ids now ttl_seconds e s ≡ x
        → (fault : EngineFault) × ((create_escalation ids now ttl_seconds e s ≡ (s, err fault))
            ⊎ ((row : Escalation) × (prepare ids now ttl_seconds e s ≡ ok row)
                × (create_escalation ids now ttl_seconds e s
                    ≡ (record s { rows = s.rows ++ row ∷ [] }, err fault))))
    go (err fault) p = (fault, inl (rw (p, create_escalation)))
    go (ok row) p =
        let (fault, f) =
          announce-fails ids row e.prosecutor_verdict (record s { rows = s.rows ++ row ∷ [] }) in
        (fault, inr (row, p, rw (p, f, create_escalation)))
