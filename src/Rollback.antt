-- ===== src/Rollback.antt =====
-- functions/rollback-engine.js: checkpoints of a tenant's data, and the rollback to one. The hash, the
-- order of the hashes in a query, and the reading of a stored manifest are parameters.
pub mod Impossible
pub mod Purge
use sentinel_engine_sovereig.Base.{
  ℕ, suc, String, Bool, true, false, Option, none, some, List, [], ◌∷◌, map, filter, not, length,
  Result, ok, err, ◌>>=◌, ◌>>◌, Table, lookup, insert, or_text, eqb, ◌%◌, ◌==◌, if◌then◌else◌, ◌⧺◌,
}
use sentinel_engine_sovereig.EvidenceLocker.{
  DbFault, query_failure, Db, ChainRow, get_sql, execute, record_event, get_last_verified_pristine,
}
use sentinel_engine_sovereig.EvidenceLocker.Callers.{event_object}

-- ROLLBACK_TABLES
abbrev pub rollback_tables : List String
rollback_tables =
    "freight_indices" ∷ "port_congestion" ∷ "maritime_chokepoints" ∷ "risk_matrix" ∷ []

pub record DomainRow : Type 0 where
  pub tenant_id : String
  pub entity_hash : String

pub record ManifestEntry : Type 0 where
  pub row_count : ℕ
  pub content_hash : String

abbrev pub Manifest : Type 0
Manifest = Table ManifestEntry

-- The locker, the rows of each domain table, the checkpoints of a tenant with the newest first, and
-- the counter of audits.
pub record Rollback : Type 0 where
  pub locker : Db
  pub tables : Table (List DomainRow)
  pub chain : String → List ChainRow
  pub audits : ℕ

-- what is not decided here: SHA-256, ORDER BY, the text of an object, and the manifest of a payload
pub record Outside : Type 0 where
  pub sha256 : List String → String
  pub ascending : List String → List String
  pub text_of : Manifest → String
  pub manifest_of : String → Manifest

pub data RollbackFault : Type 0 where
  rollback_db : DbFault → RollbackFault
  no_checkpoint : RollbackFault

abbrev pub lift_rollback {ℓ} : {A : Type ℓ} → Result DbFault A → Result RollbackFault A
lift_rollback (ok a) = ok a
lift_rollback (err fault) = err (rollback_db fault)

abbrev pub is_of : String → DomainRow → Bool
is_of tenant row = row.tenant_id == tenant

abbrev entry_for : Outside → String → List DomainRow → ManifestEntry
entry_for out tenant rows =
    let own = filter (is_of tenant) rows in
    record {
      row_count = length own;
      content_hash = out.sha256 (out.ascending (map (λ (r : DomainRow). r.entity_hash) own));
    }

-- a table that does not exist
abbrev rows_of : Option (List DomainRow) → Result DbFault (List DomainRow)
rows_of none = err (query_failure "relation does not exist")
rows_of (some rows) = ok rows

-- the manifest of these tables
unfoldable pub manifest_for : Outside → String → Rollback → List String → Result DbFault Manifest
manifest_for out tenant s [] = ok []
manifest_for out tenant s (table ∷ tables) = do
  execute s.locker
  rows ← rows_of (lookup table s.tables)
  rest ← manifest_for out tenant s tables
  ok ((table, entry_for out tenant rows) ∷ rest)

pub record Checkpointed : Type 0 where
  pub checkpointed : Bool
  pub locker_id : Option String

abbrev pub not_checkpointed : Checkpointed
not_checkpointed = record { checkpointed = false; locker_id = none }

-- counter % CHECKPOINT_INTERVAL === 0, where an interval of 0 divides nothing
abbrev is_due : ℕ → ℕ → Bool
is_due interval audits = if eqb interval 0 then false else eqb (audits % interval) 0

-- the `try` block; recordEvent returns no `lockerId`
unfoldable pub try_checkpoint :
    Outside → String → String → String → Rollback → Result DbFault (Db × Checkpointed)
unfolding manifest_for
try_checkpoint out id tenant request_id s = do
  manifest ← manifest_for out tenant s rollback_tables
  (db, id') ←
      record_event id
        (event_object request_id "PRISTINE_CHECKPOINT" tenant (out.text_of manifest) none) s.locker
  ok (db, record { checkpointed = true; locker_id = none })

-- the handler of the `try` block
caught_checkpoint :
    Rollback → Result DbFault (Db × Checkpointed) → Rollback × Result DbFault Checkpointed
caught_checkpoint s (ok (db, done)) = (record s { locker = db }, ok done)
caught_checkpoint s (err fault) = (s, ok not_checkpointed)

connected :
    Rollback
    → Result DbFault (Unit {0})
    → Result DbFault (Db × Checkpointed)
    → Rollback × Result DbFault Checkpointed
unfolding caught_checkpoint
connected s (err fault) attempt = (s, err fault)
connected s (ok _) attempt = caught_checkpoint s attempt

-- createPristineCheckpoint
unfoldable pub create_pristine_checkpoint :
    Outside → ℕ → String → String → String → Rollback → Rollback × Result DbFault Checkpointed
unfolding try_checkpoint connected
create_pristine_checkpoint out interval id tenant request_id s =
    let counted = record s { audits = suc s.audits } in
    if is_due interval (suc s.audits)
    then connected counted (get_sql s.locker) (try_checkpoint out id tenant request_id s)
    else (counted, ok not_checkpointed)

-- DELETE FROM table WHERE tenant_id = …
abbrev pub delete_rows : String → List DomainRow → List DomainRow
delete_rows tenant = filter (λ r. not (is_of tenant r))

abbrev is_some {ℓ} : {A : Type ℓ} → Option A → Bool
is_some none = false
is_some (some a) = true

-- The transaction, over these tables: the tables after it, and those that were purged.
unfoldable pub purge :
    Manifest
    → String
    → List String
    → Table (List DomainRow)
    → Result DbFault (Table (List DomainRow) × List String)
purge manifest tenant [] tables = ok (tables, [])
purge manifest tenant (table ∷ rest) tables =
    if is_some (lookup table manifest)
    then (do
      rows ← rows_of (lookup table tables)
      (tables', purged) ← purge manifest tenant rest (insert table (delete_rows tenant rows) tables)
      ok (tables', table ∷ purged))
    else purge manifest tenant rest tables

pub record RolledBack : Type 0 where
  pub checkpoint_used : String
  pub tables_restored : List String

-- what follows the commit; the module of the cache exports no `invalidateTenantCache`
record_rollback :
    String
    → String
    → String
    → String
    → String
    → List String
    → Rollback
    → Rollback × Result RollbackFault RolledBack
record_rollback id tenant authority request_id checkpoint purged s =
    elim (record_event id
      (event_object request_id "ROLLBACK_TRIGGERED" tenant checkpoint (some authority)) s.locker) [
        | err fault ↦ (s, err (rollback_db fault))
        | ok (db, id') ↦ (
          record s { locker = db },
          ok (record { checkpoint_used = checkpoint; tables_restored = purged }),
        )
      ]

-- from the checkpoint that was found
unfoldable pub restore :
    Outside
    → String
    → String
    → String
    → String
    → ChainRow
    → Rollback
    → Rollback × Result RollbackFault RolledBack
unfolding purge record_rollback
restore out id tenant authority request_id checkpoint s =
    elim (execute s.locker
      >> purge (out.manifest_of checkpoint.payload) tenant rollback_tables s.tables) [
        | err fault ↦ (s, err (rollback_db fault))
        | ok (tables, purged) ↦
            record_rollback id tenant authority request_id checkpoint.locker_id purged
              (record s { tables = tables })
      ]

find_checkpoint : String → Rollback → Result RollbackFault ChainRow
find_checkpoint tenant s =
    lift_rollback (get_last_verified_pristine s.locker (s.chain tenant)) >>= λ found. elim found [
      | none ↦ err no_checkpoint
      | some row ↦ ok row
    ]

-- initiateRollback; `request_id` is the one given, or the one that the clock makes
unfoldable pub initiate_rollback :
    Outside
    → String
    → String
    → String
    → String
    → Rollback
    → Rollback × Result RollbackFault RolledBack
unfolding find_checkpoint restore
initiate_rollback out id tenant authority request_id s =
    elim (lift_rollback (get_sql s.locker) >> find_checkpoint tenant s) [
      | err fault ↦ (s, err fault)
      | ok checkpoint ↦ restore out id tenant authority request_id checkpoint s
    ]

-- checkRollbackAvailability
unfoldable pub check_rollback_availability : String → Rollback → Result DbFault Bool
check_rollback_availability tenant s =
    get_last_verified_pristine s.locker (s.chain tenant) >>= λ found. ok (is_some found)
