-- ===== src/Rollback/Impossible.antt =====
-- functions/rollback-engine.js with functions/evidence-locker.js: no checkpoint is recorded, and no
-- rollback finds one.
use sentinel_engine_sovereig.Base.{
  ℕ, suc, String, none, some, Result, ok, err, ◌>>◌, >>=-eq-ok, ◌≡◌, refl, ◌≢◌, ◌⊎◌, inl, inr,
  arith, Bool-cases, Option,
}
use sentinel_engine_sovereig.EvidenceLocker.{
  DbFault, Db, ChainRow, get_sql, record_event, get_last_verified_pristine,
}
use sentinel_engine_sovereig.EvidenceLocker.Records.{no_pristine_checkpoint}
use sentinel_engine_sovereig.EvidenceLocker.Callers.{event_object, event_object-refused}
use sentinel_engine_sovereig.Rollback.{
  Rollback, Outside, RollbackFault, lift_rollback, Checkpointed, not_checkpointed, rollback_tables,
  is_due, manifest_for, try_checkpoint, caught_checkpoint, connected, create_pristine_checkpoint,
  find_checkpoint, initiate_rollback,
}

find_checkpoint-none :
    (tenant : String) (s : Rollback) (row : ChainRow) → find_checkpoint tenant s ≢ ok row
unfolding find_checkpoint
find_checkpoint-none tenant s row = go (get_last_verified_pristine s.locker (s.chain tenant)) refl
  where
    go :
        (x : Result DbFault (Option ChainRow))
        → get_last_verified_pristine s.locker (s.chain tenant) ≡ x
        → find_checkpoint tenant s ≢ ok row
    go (err fault) e h = ground arith
    go (ok none) e h = ground arith
    go (ok (some r)) e h = no_pristine_checkpoint s.locker (s.chain tenant) r e

-- A rollback never succeeds: it throws, whatever the state is and however many entries the locker
-- holds, and it changes nothing.
pub initiate_rollback_throws :
    (out : Outside) (id tenant authority request_id : String) (s : Rollback)
    → (fault : RollbackFault) × (initiate_rollback out id tenant authority request_id s
        ≡ (s, err fault))
unfolding initiate_rollback
initiate_rollback_throws out id tenant authority request_id s =
    go (lift_rollback (get_sql s.locker) >> find_checkpoint tenant s) refl
  where
    go :
        (x : Result RollbackFault ChainRow)
        → (lift_rollback (get_sql s.locker) >> find_checkpoint tenant s) ≡ x
        → (fault : RollbackFault) × (initiate_rollback out id tenant authority request_id s
            ≡ (s, err fault))
    go (err fault) e = (fault, rw (e, initiate_rollback) refl)
    go (ok row) e =
        let (_, _, found) =
          >>=-eq-ok (lift_rollback (get_sql s.locker)) (λ u. find_checkpoint tenant s) e in
        absurd (find_checkpoint-none tenant s row found)

try_checkpoint-fails :
    (out : Outside) (id tenant request_id : String) (s : Rollback) (r : Db × Checkpointed)
    → try_checkpoint out id tenant request_id s ≢ ok r
unfolding try_checkpoint
try_checkpoint-fails out id tenant request_id s r h =
    let (manifest, _, rest) = >>=-eq-ok (manifest_for out tenant s rollback_tables) _ h in
    let (written, recorded, _) =
      >>=-eq-ok
        (record_event id
          (event_object request_id "PRISTINE_CHECKPOINT" tenant (out.text_of manifest) none)
          s.locker)
        _ rest in
    event_object-refused id request_id "PRISTINE_CHECKPOINT" tenant (out.text_of manifest) none
      s.locker written recorded

connected-fails :
    (s : Rollback) (x : Result DbFault (Unit {0})) (y : Result DbFault (Db × Checkpointed))
    → ((r : Db × Checkpointed) → y ≢ ok r)
    → ((connected s x y).0 ≡ s)
      × (((connected s x y).1 ≡ ok not_checkpointed)
          ⊎ ((fault : DbFault) × (x ≡ err fault) × ((connected s x y).1 ≡ err fault)))
unfolding connected caught_checkpoint
connected-fails s (err fault) y never = (refl, inr (fault, refl, refl))
connected-fails s (ok u) (ok r) never = absurd (never r refl)
connected-fails s (ok u) (err fault) never = (refl, inl refl)

-- A call that should make a checkpoint counts one more audit and does nothing else, at every
-- interval: it reports that there is no checkpoint, or throws where the database is not configured.
pub create_pristine_checkpoint_never :
    (out : Outside) (interval : ℕ) (id tenant request_id : String) (s : Rollback)
    → ((create_pristine_checkpoint out interval id tenant request_id s).0
        ≡ record s { audits = suc s.audits })
      × (((create_pristine_checkpoint out interval id tenant request_id s).1 ≡ ok not_checkpointed)
          ⊎ ((fault : DbFault) × (get_sql s.locker ≡ err fault)
              × ((create_pristine_checkpoint out interval id tenant request_id s).1 ≡ err fault)))
unfolding create_pristine_checkpoint
create_pristine_checkpoint_never out interval id tenant request_id s =
    elim (Bool-cases (is_due interval (suc s.audits))) [
      | inr early ↦ rw early (refl, inl refl)
      | inl due ↦ rw due (
          connected-fails (record s { audits = suc s.audits }) (get_sql s.locker)
            (try_checkpoint out id tenant request_id s)
            (try_checkpoint-fails out id tenant request_id s))
    ]
