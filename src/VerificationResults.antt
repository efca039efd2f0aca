-- ===== src/VerificationResults.antt =====
-- functions/verification-loop.js: the table of the verdicts, and the poll for one.
use sentinel_engine_sovereig.Base.{
  ℕ, String, Bool, true, Option, none, some, List, Result, ok, err, ◌>>=◌, Table, lookup, insert,
  if◌then◌else◌,
}
use sentinel_engine_sovereig.EvidenceLocker.{DbFault, get_sql, execute}
use sentinel_engine_sovereig.AuthorityGraph.Loader.{UnitLoader}
use sentinel_engine_sovereig.Escalation.{Engine}

-- verdict._escalation
pub data EscalationMark : Type 0 where
  escalation_pending : String → String → EscalationMark
  escalation_failed_blocked : EscalationMark

-- What is parsed from the reply of the prosecutor, where a missing field is `none`. A value that is no
-- object has no fields, and keeps none that is set on it.
pub record Verdict : Type 0 where
  pub is_object : Bool
  pub is_verified : Option Bool
  pub discrepancies : Option (List String)
  pub verification_notes : Option String
  pub escalation : Option EscalationMark

-- a row of verification_results; is_verified may be NULL
pub record VerificationRow : Type 0 where
  pub tenant_id : String
  pub is_verified : Option Bool
  pub discrepancies : List String
  pub verification_notes : String
  pub latency_ms : ℕ
  pub escalation_id : Option String

-- the flag _tableEnsured, the table by its request_id, and what the calls below share
pub record Loop : Type 0 where
  pub table_ensured : Bool
  pub results : Table VerificationRow
  pub engine : Engine
  pub loader : UnitLoader

-- ensureVerificationTable: getSql throws outside the `try`, and the statement inside it
unfoldable pub ensure_verification_table : Loop → Result DbFault Loop
ensure_verification_table s =
    if s.table_ensured
    then ok s
    else get_sql s.engine.locker >>= λ connected. ok (record s { table_ensured = true })

-- ON CONFLICT DO UPDATE keeps the tenant
unfoldable pub upserted : VerificationRow → Option VerificationRow → VerificationRow
upserted new none = new
upserted new (some old) = record new { tenant_id = old.tenant_id }

-- A parameter that is undefined is refused by the driver, unless it is set to bind it as NULL. The
-- column is undefined (`none`) or has a value, which may be NULL.
unfoldable pub binds : Loop → Option (Option Bool) → Option (Option Bool)
binds s none = if s.engine.locker.binds_undefined then some none else none
binds s (some value) = some value

unfoldable pub write_row : String → VerificationRow → Loop → Loop
unfolding upserted
write_row id row s = record s { results = insert id (upserted row (lookup id s.results)) s.results }

-- storeVerificationResult: the errors of the statement are only printed
unfoldable pub store_verification_result :
    String → VerificationRow → Option (Option Bool) → Loop → Result DbFault Loop
unfolding write_row binds
store_verification_result id row verified s = get_sql s.engine.locker >>= λ connected.
    elim (binds s verified) [
      | none ↦ ok s
      | some value ↦ elim (execute s.engine.locker) [
        | err fault ↦ ok s
        | ok done ↦ ok (write_row id (record row { is_verified = value }) s)
      ]
    ]

pub data Poll : Type 0 where
  pending_result failed_poll : Poll
  completed : VerificationRow → Poll

-- getVerificationStatus
unfoldable pub get_verification_status : String → Loop → Result DbFault Poll
get_verification_status id s = get_sql s.engine.locker >>= λ connected.
    elim (execute s.engine.locker) [
      | err fault ↦ ok failed_poll
      | ok done ↦ elim (lookup id s.results) [
        | none ↦ ok pending_result
        | some row ↦ ok (completed row)
      ]
    ]
