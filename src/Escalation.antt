-- ===== src/Escalation.antt =====
-- functions/escalation-engine.js: the requests that wait for a human decision. A method returns the
-- new state and its result; what it wrote before it throws stays written. One time, in milliseconds,
-- is read for each call. The JSON that is stored is held as its text or as the record it encodes.

pub mod Refusal
pub mod Resolve
pub mod Expire
pub mod Rows
pub mod Life
pub mod Race
use sentinel_engine_sovereig.Base.{
  ℕ, String, Bool, true, false, Option, none, some, List, [], ◌∷◌, ◌++◌, ◌+◌, ◌*◌, not, ◌&&◌,
  Result, ok, err, ◌>>=◌, ◌>>◌, Table, lookup, truthy, or_null, or_text, take_text, length, ltb,
  ◌==◌, if◌then◌else◌,
}
use sentinel_engine_sovereig.AuthorityGraph.Unit.{AuthorityUnit, Fault}
use sentinel_engine_sovereig.AuthorityGraph.Reduction.{contract_to_minimum}
use sentinel_engine_sovereig.AuthorityMatrix.{
  MatrixFault, AuthorityRow, Matrix, Authority, classify_blast_radius, resolve_authority,
}
use sentinel_engine_sovereig.EvidenceLocker.Callers.{event_object}
use sentinel_engine_sovereig.EvidenceLocker.{
  DbFault, Db, Object, get_sql, execute, record_event, event_types,
}

pub data Status : Type 0 where
  pending override_released confirmed_blocked ttl_expired monotonic_reduction_applied : Status

pub data EngineFault : Type 0 where
  db_fault : DbFault → EngineFault
  matrix_fault : MatrixFault → EngineFault
  reduction_fault : Fault → EngineFault
  webauthn_verification_failed not_found has_expired : EngineFault
  already_resolved : Status → EngineFault

pub record EvidenceFragment : Type 0 where
  pub ai_intent : Option String
  pub pristine_data : Option String
  pub prosecutor_logic : String
  pub blast_radius : String
  pub impact_level : String
  pub query_classification : String

-- a row of `escalation_requests`
pub record Escalation : Type 0 where
  pub escalation_id : String
  pub request_id : String
  pub tenant_id : String
  pub authority_id : String
  pub status : Status
  pub impact_level : String
  pub blast_radius : String
  pub evidence_fragment : EvidenceFragment
  pub ttl_expires_at : ℕ
  pub resolved_by : Option String
  pub coaching_annotation : Option String
  pub webauthn_assertion_id : Option String

pub data Broadcast : Type 0 where
  escalation_created escalation_resolved monotonic_reduction : String → Broadcast

-- The evidence locker, the authorities with the fault of their statements, the graph registry that
-- reduction.js imports, the rows, and what was sent to the dashboards.
pub record Engine : Type 0 where
  pub locker : Db
  pub authorities : List AuthorityRow
  pub matrix_failing : Option MatrixFault
  pub registry : Option (Table AuthorityUnit)
  pub rows : List Escalation
  pub sent : List Broadcast

-- both files read the one connection of db.js
abbrev pub matrix_of : Engine → Matrix
matrix_of s = record {
  configured = s.locker.configured;
  failing = s.matrix_failing;
  rows = s.authorities;
}

-- ESCALATION_TTL_SECONDS, unless the environment sets it
abbrev pub default_ttl_seconds : ℕ
default_ttl_seconds = 300

abbrev pub lift_db {ℓ} : {A : Type ℓ} → Result DbFault A → Result EngineFault A
lift_db (ok a) = ok a
lift_db (err fault) = err (db_fault fault)

abbrev pub lift_matrix {ℓ} : {A : Type ℓ} → Result MatrixFault A → Result EngineFault A
lift_matrix (ok a) = ok a
lift_matrix (err fault) = err (matrix_fault fault)

-- recordEvent on the locker of the engine
unfoldable pub record_in : String → Object → Engine → Engine × Result EngineFault (Unit {0})
record_in id event s = elim (record_event id event s.locker) [
  | ok (db, _) ↦ (record s { locker = db }, ok tt)
  | err fault ↦ (s, err (db_fault fault))
]

-- what follows an awaited call that may throw
abbrev pub and_then {ℓ} :
    {A : Type ℓ}
    → Engine × Result EngineFault (Unit {0})
    → (Engine → Engine × Result EngineFault A)
    → Engine × Result EngineFault A
and_then (s, ok _) k = k s
and_then (s, err fault) k = (s, err fault)

pub record RejectionEvent : Type 0 where
  pub request_id : String
  pub tenant_id : String
  pub narrative : Option String
  pub source_context : Option String
  pub prosecutor_verdict : String
  pub impact_level : String
  pub query_classification : String

-- what a call draws: the ids of the escalation and of the rows of the locker
pub record Ids : Type 0 where
  pub escalation : String
  pub first : String
  pub second : String
  pub assertion : String

-- sourceContext ? sourceContext.substring(0, 4096) : null
abbrev pristine_of : Option String → Option String
pristine_of none = none
pristine_of (some text) = if text == "" then none else some (take_text 4096 text)

unfoldable pub escalation_of : Ids → ℕ → ℕ → RejectionEvent → String → Authority → Escalation
escalation_of ids now ttl_seconds e blast_radius authority = record {
  escalation_id = ids.escalation;
  request_id = e.request_id;
  tenant_id = e.tenant_id;
  authority_id = authority.authority_id;
  status = pending;
  impact_level = e.impact_level;
  blast_radius = blast_radius;
  evidence_fragment = record {
    ai_intent = e.narrative;
    pristine_data = pristine_of e.source_context;
    prosecutor_logic = e.prosecutor_verdict;
    blast_radius = blast_radius;
    impact_level = e.impact_level;
    query_classification = e.query_classification;
  };
  ttl_expires_at = now + ttl_seconds * 1000;
  resolved_by = none;
  coaching_annotation = none;
  webauthn_assertion_id = none;
}

-- the two events and the broadcast that follow the INSERT; the webhook is not awaited
announce : Ids → Escalation → String → Engine → Engine × Result EngineFault Escalation
announce ids row verdict s =
    let rejection =
      event_object row.request_id "PROSECUTOR_REJECTION" row.tenant_id verdict
        (some row.authority_id) in
    let created =
      event_object row.request_id "ESCALATION_CREATED" row.tenant_id row.escalation_id
        (some row.authority_id) in
    and_then (record_in ids.first rejection s) λ s1.
      and_then (record_in ids.second created s1)
        λ s2. (record s2 { sent = s2.sent ++ escalation_created row.escalation_id ∷ [] }, ok row)

-- what precedes the INSERT, and the statement itself
unfoldable pub prepare : Ids → ℕ → ℕ → RejectionEvent → Engine → Result EngineFault Escalation
prepare ids now ttl_seconds e s = do
  let blast_radius = classify_blast_radius e.impact_level e.query_classification
  lift_db (get_sql s.locker)
  authority ← lift_matrix (resolve_authority (matrix_of s) blast_radius (some e.tenant_id))
  lift_db (execute s.locker)
  ok (escalation_of ids now ttl_seconds e blast_radius authority)

unfoldable pub create_escalation :
    Ids → ℕ → ℕ → RejectionEvent → Engine → Engine × Result EngineFault Escalation
unfolding prepare announce record_in
create_escalation ids now ttl_seconds e s = elim (prepare ids now ttl_seconds e s) [
  | err fault ↦ (s, err fault)
  | ok row ↦ announce ids row e.prosecutor_verdict (record s { rows = s.rows ++ row ∷ [] })
]
