-- ===== src/EvidenceLocker.antt =====
-- functions/evidence-locker.js: the tables of requests, decisions, responses and findings, the
-- event that callers record, and the walk over a chain of signed entries.
pub mod Records
pub mod ChainWalk
pub mod Callers
use sentinel_engine_sovereig.Base.{
  ℕ, zero, suc, String, Bool, true, false, Option, none, some, List, [], ◌∷◌, ◌++◌, not, ◌&&◌, ◌||◌,
  Result, ok, err, ◌>>=◌, ◌>>◌, Table, lookup, same, or_null, or_text, includes, length,
  if◌then◌else◌,
}

pub data DbFault : Type 0 where
  config_failure undefined_value not_null_violation check_violation foreign_key_violation : DbFault
  query_failure : String → DbFault

-- one row of `evidence_locker`; the JSON columns hold their text
pub record Entry : Type 0 where
  pub id : String
  pub request_id : Option String
  pub decision : String
  pub authority_unit_id : Option String
  pub contract_evaluated_id : Option String
  pub delegation_chain : Option String
  pub invariants_checked : Option String
  pub legibility_record : String
  pub governance_finding : Option String
  pub signature : String

pub record Response : Type 0 where
  pub request_id : String
  pub authority_unit : String
  pub decision : String
  pub legibility_record : String

-- a row of `governance_findings`; the scope holds its text
pub record Finding : Type 0 where
  pub request_id : String
  pub trigger : String
  pub action : String
  pub attenuated_scope : Option String
  pub supervisor_timeout : Bool

-- The database as this file sees it. `configured`: DATABASE_URL is set. `failing`: the fault that
-- every statement meets, if the server cannot be reached. `binds_undefined`: the client sends an
-- undefined parameter as NULL; otherwise it refuses it.
pub record Db : Type 0 where
  pub configured : Bool
  pub failing : Option DbFault
  pub binds_undefined : Bool
  pub requests : List String
  pub entries : List Entry
  pub responses : List Response
  pub findings : List Finding

-- An object that a caller passes: the fields that are there and not undefined.
abbrev pub Object : Type 0
Object = Table String

-- getSql()
unfoldable pub get_sql : Db → Result DbFault (Unit {0})
get_sql db = if db.configured then ok tt else err config_failure

-- the binding of a parameter of a statement
unfoldable pub bind_param : Db → Option String → Result DbFault (Option String)
bind_param db (some v) = ok (some v)
bind_param db none = if db.binds_undefined then ok none else err undefined_value

-- the fault of the server, if there is one
unfoldable pub execute : Db → Result DbFault (Unit {0})
execute db = elim db.failing [ none ↦ ok tt | some fault ↦ err fault ]

-- NOT NULL
unfoldable pub not_null : Option String → Result DbFault String
not_null none = err not_null_violation
not_null (some v) = ok v

-- CHECK (decision IN (…))
unfoldable pub check_in : List String → String → Result DbFault (Unit {0})
check_in allowed v = if includes allowed v then ok tt else err check_violation

abbrev pub locker_decisions : List String
locker_decisions = "permit" ∷ "deny" ∷ "halt" ∷ "escalate" ∷ []

abbrev pub response_decisions : List String
response_decisions = "permit" ∷ "escalate" ∷ "deny" ∷ "reduce" ∷ []

abbrev pub finding_actions : List String
finding_actions = "attenuate" ∷ "suspend" ∷ "revoke" ∷ []

-- REFERENCES arbitration_requests(id), which NULL passes
unfoldable pub references : Db → Option String → Result DbFault (Unit {0})
references db none = ok tt
references db (some id) = if includes db.requests id then ok tt else err foreign_key_violation

-- createArbitrationRequest: the id is the one that the database draws
unfoldable pub create_arbitration_request : String → Db → Result DbFault (Db × String)
unfolding get_sql execute
create_arbitration_request id db = do
  get_sql db
  execute db
  ok (record db { requests = db.requests ++ id ∷ [] }, id)

-- recordEvent: the fields are read from the object by their names, and a field with no default that
-- is not there is undefined
unfoldable pub record_event : String → Object → Db → Result DbFault (Db × String)
record_event id event db = do
  get_sql db
  request_id ← bind_param db (lookup "request_id" event)
  decision ← bind_param db (lookup "decision" event)
  signature ← bind_param db (lookup "signature" event)
  execute db
  decision ← not_null decision
  signature ← not_null signature
  check_in locker_decisions decision
  references db request_id
  let entry : Entry = record {
    id = id;
    request_id = request_id;
    decision = decision;
    authority_unit_id = lookup "authority_unit_id" event;
    contract_evaluated_id = lookup "contract_evaluated_id" event;
    delegation_chain = lookup "delegation_chain" event;
    invariants_checked = lookup "invariants_checked" event;
    legibility_record = or_text (lookup "legibility_record" event) "{}";
    governance_finding = lookup "governance_finding" event;
    signature = signature;
  }
  ok (record db { entries = db.entries ++ entry ∷ [] }, id)

insert_response : String → Response → Db → Result DbFault (Db × String)
unfolding get_sql execute check_in references
insert_response id r db = do
  get_sql db
  execute db
  check_in response_decisions r.decision
  references db (some r.request_id)
  ok (record db { responses = db.responses ++ r ∷ [] }, id)

-- recordArbitrationResponse: every failure is caught and read as a denial
unfoldable pub record_arbitration_response : String → Response → Db → Db × String
unfolding insert_response
record_arbitration_response id r db = elim (insert_response id r db) [
  | ok (db', id') ↦ (db', id')
  | err fault ↦ (db, "DENY_SYSTEM_FAILURE")
]

-- recordGovernanceFinding
unfoldable pub record_governance_finding : String → Finding → Db → Result DbFault (Db × String)
unfolding get_sql execute check_in references
record_governance_finding id f db = do
  get_sql db
  execute db
  check_in finding_actions f.action
  references db (some f.request_id)
  ok (record db { findings = db.findings ++ f ∷ [] }, id)

-- getFragment
matching : String → List Entry → List Entry
matching request_id [] = []
matching request_id (e ∷ es) =
    let rest = matching request_id es in
    if same e.request_id (some request_id) then e ∷ rest else rest

-- a call that throws before its `try` block leaves the fault to the caller
unfoldable pub get_fragment : String → Db → Result DbFault (List Entry)
unfolding get_sql execute matching
get_fragment request_id db =
    get_sql db >> ok (elim (execute db) [ ok _ ↦ matching request_id db.entries | err _ ↦ [] ])

-- EVENT_TYPES
abbrev pub event_types : Table String
event_types =
    ("GOVERNANCE_FINDING", "GOVERNANCE_FINDING")
    ∷ ("LEGIBILITY_RECORD", "LEGIBILITY_RECORD")
    ∷ ("PQ_BLOCK", "PQ_BLOCK")
    ∷ ("ECDSA_BLOCK", "ECDSA_BLOCK")
    ∷ []

-- a row as the queries for checkpoints and chains read it
pub record ChainRow : Type 0 where
  pub locker_id : String
  pub request_id : String
  pub event_type : String
  pub tenant_id : String
  pub payload : String
  pub signature : String
  pub previous_signature : Option String

-- event_type = $1, where NULL equals nothing
first_of_type : Option String → List ChainRow → Option ChainRow
first_of_type none rows = none
first_of_type (some t) [] = none
first_of_type (some t) (r ∷ rs) =
    let rest = first_of_type (some t) rs in
    elim (same (some r.event_type) (some t)) [ true ↦ some r | false ↦ rest ]

-- getLastVerifiedPristine; `rows` are the entries of the tenant, the newest first
unfoldable pub get_last_verified_pristine : Db → List ChainRow → Result DbFault (Option ChainRow)
unfolding get_sql execute bind_param first_of_type
get_last_verified_pristine db rows =
    get_sql db
    >> ok
        (elim (bind_param db (lookup "PRISTINE_CHECKPOINT" event_types) >>= λ t.
          execute db >> ok t) [ ok t ↦ first_of_type t rows | err fault ↦ none ])

-- what verifyPayload is given for a row
pub record Canonical : Type 0 where
  pub locker_id : String
  pub request_id : String
  pub event_type : String
  pub tenant_id : String
  pub payload : String
  pub previous_signature : String

unfoldable pub canonical : ChainRow → Canonical
canonical r = record {
  locker_id = r.locker_id;
  request_id = r.request_id;
  event_type = r.event_type;
  tenant_id = r.tenant_id;
  payload = r.payload;
  previous_signature = or_text r.previous_signature "GENESIS";
}

pub data Broken : Type 0 where
  at_entry : String → Broken
  by_fault : DbFault → Broken

pub record ChainReport : Type 0 where
  pub valid : Bool
  pub entry_count : ℕ
  pub broken_at : Option Broken

-- securityManager.verifyPayload
abbrev pub VerifyPayload : Type 0
VerifyPayload = Canonical → String → Result DbFault Bool

-- The loop over the rows, with the last signature: the entry at which it breaks, if any.
unfoldable pub walk : VerifyPayload → Option String → List ChainRow → Result DbFault (Option String)
walk verify last [] = ok none
walk verify last (r ∷ rs) =
    let rest = walk verify (some r.signature) rs in
    if same r.previous_signature (or_null last)
    then (verify (canonical r) r.signature >>= λ valid.
        if valid then rest else ok (some r.locker_id))
    else ok (some r.locker_id)

report : ℕ → Result DbFault (Option String) → ChainReport
report count (ok none) = record { valid = true; entry_count = count; broken_at = none }
report count (ok (some id)) = record {
  valid = false;
  entry_count = count;
  broken_at = some (at_entry id);
}
report count (err fault) = record {
  valid = false;
  entry_count = 0;
  broken_at = some (by_fault fault);
}

-- verifyChain, over the rows of the tenant, the oldest first, or the fault of the query
unfoldable pub verify_chain : VerifyPayload → Result DbFault (List ChainRow) → ChainReport
unfolding report
verify_chain verify (err fault) = report 0 (err fault)
verify_chain verify (ok rows) = report (length rows) (walk verify none rows)

abbrev first_rows : ℕ → List ChainRow → List ChainRow
first_rows zero rows = []
first_rows (suc n) [] = []
first_rows (suc n) (r ∷ rs) = r ∷ first_rows n rs

-- getRecentEvents; `rows` are the entries of the tenant, the newest first
unfoldable pub get_recent_events : ℕ → Db → List ChainRow → Result DbFault (List ChainRow)
unfolding get_sql execute
get_recent_events limit db rows =
    get_sql db >> ok (elim (execute db) [ ok _ ↦ first_rows limit rows | err _ ↦ [] ])
