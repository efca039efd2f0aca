-- ===== src/AuthorityGraph/Reduction.antt =====
-- functions/authority-graph/reduction.js: the reduction of a unit to its minimum, and the finding
-- that is signed for it. The registry that the file imports is a parameter here; what it is in the
-- program is `global_graph_registry`.
pub mod Minimum
use sentinel_engine_sovereig.Base.{
  String, Option, none, some, List, [], ◌∷◌, ◌++◌, map, Result, ok, err, true, ◌⧺◌, Table, lookup,
  insert,
}
use sentinel_engine_sovereig.Base.Int.{pos}
use sentinel_engine_sovereig.AuthorityGraph.Unit.{
  Fault, type_error, Condition, predicate, expectation, other, Limit, Scope, AuthorityUnit,
}

pub data FindingStatus : Type 0 where
  reduction_failed monotonic_reduction_applied signature_failed : FindingStatus

pub data ReductionApplied : Type 0 where
  not_found : ReductionApplied
  reduced : Scope → Scope → ReductionApplied

pub record GovernanceFinding : Type 0 where
  pub finding_id : String
  pub authority_unit_id : String
  pub timestamp : String
  pub trigger : String
  pub reduction_applied : ReductionApplied
  pub status : FindingStatus
  pub signature : Option String

-- asymmetricKms.sign of the text of a finding
abbrev pub Sign : Type 0
Sign = GovernanceFinding → Result Fault String

with_signature : GovernanceFinding → Result Fault String → GovernanceFinding
with_signature finding (ok s) = record finding { signature = some s }
with_signature finding (err fault) = record finding { status = signature_failed }

unfoldable pub finalize_finding : Option Sign → GovernanceFinding → GovernanceFinding
unfolding with_signature
finalize_finding none finding = finding
finalize_finding (some sign) finding = with_signature finding (sign finding)

-- JSON.parse(JSON.stringify(scope)): a function in an array becomes null
abbrev clone_condition : Condition → Condition
clone_condition (predicate p) = other
clone_condition (expectation text) = expectation text
clone_condition other = other

clone_scope : Scope → Scope
clone_scope s = record s { conditions = map clone_condition s.conditions }

abbrev domain_text : Option String → String
domain_text none = "undefined"
domain_text (some d) = d

abbrev pub minimized_domain : Option String → String
minimized_domain d = domain_text d ⧺ "_MINIMIZED_SAFE_MODE"

-- { ...l, max: 0 }
abbrev pub zero_limit : Limit → Limit
zero_limit l = record l { max = some (pos 0) }

-- SYSTEM_FAILSAFE
abbrev pub system_failsafe : Condition
system_failsafe = predicate (λ context. ok true)

unfoldable pub reduce_scope : Scope → Scope
reduce_scope s = record s {
  limits = map zero_limit s.limits;
  conditions = s.conditions ++ system_failsafe ∷ [];
  domain = some (minimized_domain s.domain);
}

start_finding : String → String → String → String → GovernanceFinding
start_finding finding_id timestamp unit_id trigger = record {
  finding_id = finding_id;
  authority_unit_id = unit_id;
  timestamp = timestamp;
  trigger = trigger;
  reduction_applied = not_found;
  status = reduction_failed;
  signature = none;
}

-- the unit that was found is changed in place, so the registry holds the reduced one
apply_reduction :
    Option Sign
    → GovernanceFinding
    → String
    → Table AuthorityUnit
    → Option AuthorityUnit
    → Table AuthorityUnit × GovernanceFinding
unfolding finalize_finding clone_scope reduce_scope
apply_reduction sign finding unit_id registry none = (registry, finalize_finding sign finding)
apply_reduction sign finding unit_id registry (some unit) = (
  insert unit_id (record unit { scope = reduce_scope unit.scope }) registry,
  finalize_finding sign (record finding {
    reduction_applied = reduced (clone_scope unit.scope) (reduce_scope unit.scope);
    status = monotonic_reduction_applied;
  }),
)

-- The random id and the time come first. A registry that is undefined is a TypeError, and the program
-- passes no other: the name that the file imports from ./unit is not exported there. The second clause
-- is what the function does with a registry.
unfoldable pub contract_to_minimum :
    String
    → String
    → Option (Table AuthorityUnit)
    → String
    → String
    → Option Sign
    → Result Fault (Table AuthorityUnit × GovernanceFinding)
unfolding apply_reduction start_finding
contract_to_minimum finding_id timestamp none unit_id trigger sign = err type_error
contract_to_minimum finding_id timestamp (some registry) unit_id trigger sign = ok (
    apply_reduction sign (start_finding finding_id timestamp unit_id trigger) unit_id registry
      (lookup unit_id registry))

-- `globalGraphRegistry` of './unit': that module exports no such name
unfoldable pub global_graph_registry : Option (Table AuthorityUnit)
global_graph_registry = none
