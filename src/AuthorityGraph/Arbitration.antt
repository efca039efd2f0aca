-- ===== src/AuthorityGraph/Arbitration.antt =====
-- functions/authority-graph/arbitration.js: the tiers that a request passes, and the record that is
-- signed for it. The key service is an interface: what it signs and verifies is a parameter.

pub mod Permits
pub mod Denials
pub mod Decision
use sentinel_engine_sovereig.Base.{
  ℕ, String, Bool, true, false, Option, none, some, List, [], ◌∷◌, ◌++◌, not, ◌&&◌, Result, ok, err,
  ◌>>=◌, same, truthy, or_text, if◌then◌else◌,
}
use sentinel_engine_sovereig.AuthorityGraph.Unit.{
  Fault, type_error, Context, AuthorityUnit, Provenance, evaluate_conditions,
}
use sentinel_engine_sovereig.AuthorityGraph.Loader.{UnitLoader, Query, load_graph}

pub data Contract : Type 0 where
  pairwise_contract domain_contract constitutional_review : Contract

pub data Tier : Type 0 where
  pairwise domain constitutional system_fault : Tier

pub data Status : Type 0 where
  denied denied_no_ambient_authority denied_pairwise_conflict denied_domain_mismatch : Status
  denied_provenance_forgery denied_constitutional_conditions_failed : Status
  denied_constitutional_no_audit_trail denied_evaluation_error denied_legibility_failure : Status
  denied_signature_failure permit : Status

pub record LegibilityRecord : Type 0 where
  pub decision_id : String
  pub request_id : String
  pub authority_unit_id : String
  pub target_unit_id : Option String
  pub delegation_chain : List String
  pub contracts_traversed : List Contract
  pub tier_resolved_at : Option Tier
  pub status : Status
  pub timestamp : String
  pub context_keys : List String
  pub error : Option Fault
  pub signature : Option String

-- AsymmetricKmsProvider, as this file uses it: the signature of the text of a record, and the check
-- of a signature of the text of a chain
pub record Kms : Type 0 where
  pub sign : LegibilityRecord → Result Fault String
  pub verify : List String → String → Result Fault Bool

pub record Action : Type 0 where
  pub source_unit_id : String
  pub target_unit_id : Option String
  pub domain : Option String
  pub tenant_id : Option String
  pub override_cross_domain : Bool
  pub is_irreversible : Bool

-- what a call reads from outside: the database, the random id, and the clock each time it is read
pub record Env : Type 0 where
  pub query : Query
  pub decision_id : String
  pub timestamp : String
  pub source_read : ℕ
  pub source_stored : ℕ
  pub target_read : ℕ
  pub target_stored : ℕ
  pub conditions_read : ℕ

abbrev pub is_permit : Status → Bool
is_permit permit = true
is_permit _ = false

sign_record : Kms → LegibilityRecord → Result Fault String → LegibilityRecord
sign_record kms record_ (ok s) = record record_ { signature = some s }
sign_record kms record_ (err fault) =
    if is_permit record_.status
    then record record_ { status = denied_signature_failure }
    else record_

unfoldable pub finalize : Option Kms → LegibilityRecord → LegibilityRecord
unfolding sign_record
finalize none r = if is_permit r.status then record r { status = denied_legibility_failure } else r
finalize (some kms) r = sign_record kms r (kms.sign r)

-- the record that a request starts with
unfoldable pub initial_record : Env → String → Action → Context → LegibilityRecord
initial_record env request_id action context = record {
  decision_id = env.decision_id;
  request_id = request_id;
  authority_unit_id = action.source_unit_id;
  target_unit_id = if truthy action.target_unit_id then action.target_unit_id else none;
  delegation_chain = [];
  contracts_traversed = [];
  tier_resolved_at = none;
  status = denied;
  timestamp = env.timestamp;
  context_keys = context.keys;
  error = none;
  signature = none;
}

verify_signature : Option Kms → List String → String → Result Fault Bool
verify_signature none chain s = err type_error
verify_signature (some kms) chain s = kms.verify chain s

unfoldable pub verify_provenance : Option Kms → Provenance → Result Fault Bool
unfolding verify_signature
verify_provenance kms p =
    if truthy p.signature then verify_signature kms p.chain (or_text p.signature "") else ok true

abbrev is_missing : Option Kms → Bool
is_missing none = true
is_missing (some kms) = false

-- tier 3; what throws in it goes to the handler of the whole evaluation
unfoldable pub review : Option Kms → ℕ → Context → Action → AuthorityUnit → Result Fault Status
review kms now context action source = verify_provenance kms source.provenance >>= λ genuine.
    if not genuine
    then ok denied_provenance_forgery
    else evaluate_conditions now context source >>= λ holds. ok (
        if not holds
        then denied_constitutional_conditions_failed
        else if action.is_irreversible && is_missing kms
        then denied_constitutional_no_audit_trail
        else permit)

-- the status that tier 3 leaves, or the record of a fault
constitute : LegibilityRecord → Result Fault Status → LegibilityRecord
constitute r (ok status) = record r { status = status; tier_resolved_at = some constitutional }
constitute r (err fault) = record r {
  status = denied_evaluation_error;
  error = some fault;
  tier_resolved_at = some system_fault;
}

-- record.contracts_traversed.push(c)
abbrev traverse : Contract → LegibilityRecord → LegibilityRecord
traverse c r = record r { contracts_traversed = r.contracts_traversed ++ c ∷ [] }

-- tiers 2 and 3
unfoldable pub domain_tiers :
    Option Kms → ℕ → Context → Action → AuthorityUnit → LegibilityRecord → LegibilityRecord
unfolding constitute
domain_tiers kms now context action source r0 =
    let r = traverse domain_contract r0 in
    if not (same source.scope.domain action.domain)
      && not (same source.scope.domain (some "SYSTEM"))
    then record r { status = denied_domain_mismatch; tier_resolved_at = some domain }
    else constitute (traverse constitutional_review r) (review kms now context action source)

-- the `try` block: tier 1, where there is a target, then tiers 2 and 3
unfoldable pub evaluate_tiers :
    Option Kms
    → ℕ
    → Context
    → Action
    → AuthorityUnit
    → Option AuthorityUnit
    → LegibilityRecord
    → LegibilityRecord
evaluate_tiers kms now context action source none r = domain_tiers kms now context action source r
evaluate_tiers kms now context action source (some target) r0 =
    let r = traverse pairwise_contract r0 in
    if not (same source.scope.domain target.scope.domain) && not action.override_cross_domain
    then record r { status = denied_pairwise_conflict; tier_resolved_at = some pairwise }
    else domain_tiers kms now context action source r

-- an exception of the load of the target is dropped
target_or_none : Result Fault (Option AuthorityUnit) → Option AuthorityUnit
target_or_none (ok target) = target
target_or_none (err fault) = none

unfoldable pub load_target : Env → Action → UnitLoader → UnitLoader × Option AuthorityUnit
unfolding target_or_none
load_target env action loader =
    if truthy action.target_unit_id
    then (let (loader', found) =
          load_graph env.query (or_text action.target_unit_id "")
            (or_text action.tenant_id "SYSTEM") env.target_read env.target_stored loader in
        (loader', target_or_none found))
    else (loader, none)

-- what follows the load of the source; a source that is null is a TypeError outside the `try`
unfoldable pub evaluate_source :
    Env
    → Action
    → Context
    → Option Kms
    → LegibilityRecord
    → UnitLoader
    → Result Fault (Option AuthorityUnit)
    → UnitLoader × Result Fault LegibilityRecord
evaluate_source env action context kms r loader (err fault) =
    (loader, ok (finalize kms (record r { status = denied_no_ambient_authority })))
evaluate_source env action context kms r loader (ok none) = (loader, err type_error)
evaluate_source env action context kms r loader (ok (some source)) =
    let (loader', target) = load_target env action loader in
    (
      loader',
      ok (
          finalize kms (
            evaluate_tiers kms env.conditions_read context action source target
              (record r { delegation_chain = source.provenance.chain }))),
    )

unfoldable pub evaluate_decision :
    Env
    → String
    → Action
    → Context
    → Option Kms
    → UnitLoader
    → UnitLoader × Result Fault LegibilityRecord
evaluate_decision env request_id action context kms loader =
    let (loader', found) =
      load_graph env.query action.source_unit_id (or_text action.tenant_id "SYSTEM") env.source_read
        env.source_stored loader in
    evaluate_source env action context kms (initial_record env request_id action context) loader'
      found
