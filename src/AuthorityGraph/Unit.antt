-- ===== src/AuthorityGraph/Unit.antt =====
-- functions/authority-graph/unit.js, the class AuthorityUnit. A constructor that throws returns
-- `err`. Numeric limits are integers; a limit whose `max` is no number has `none`.

pub mod Construct
use text.Mathlib.Text.{starts_with}
use sentinel_engine_sovereig.Base.{
  ℕ, String, Bool, true, false, Option, none, some, List, [], ◌∷◌, not, ◌&&◌, ◌||◌, Result, ok, err,
  ◌>>=◌, ◌>>◌, Table, lookup, same, truthy, or_null, includes, get_last?, find?, ltb, eqb, ◌==◌,
  if◌then◌else◌,
}
use sentinel_engine_sovereig.Base.Int.{ℤ, ltb_ℤ}

-- what `throw new Error(…)` carries, and the errors of the calls that the source makes
pub data Fault : Type 0 where
  chain_not_rooted no_root_chain undefined_grantor domain_mismatch limit_exceeded : Fault
  unit_not_found type_error : Fault
  thrown : String → Fault

pub record Verdict : Type 0 where
  pub is_verified : Option Bool

-- the `context` of a request: its keys, and the verdict that conditions read
pub record Context : Type 0 where
  pub keys : List String
  pub verdict : Option Verdict

-- an entry of `scope.conditions`: a function, a string, or anything else
pub data Condition : Type 0 where
  predicate : (Context → Result Fault Bool) → Condition
  expectation : String → Condition
  other : Condition

pub record Limit : Type 0 where
  pub metric : Option String
  pub max : Option ℤ

pub record Scope : Type 0 where
  pub decision_type : Option String
  pub domain : Option String
  pub conditions : List Condition
  pub limits : List Limit

pub record Delegation : Type 0 where
  pub granted_by : Option String
  pub contract : Option String
  pub re_delegation : Bool

pub record Termination : Type 0 where
  pub expiry : Option ℕ
  pub revocation_triggers : List String

pub record Provenance : Type 0 where
  pub chain : List String
  pub verifiable : Bool
  pub signature : Option String

pub record AuthorityUnit : Type 0 where
  pub id : String
  pub scope : Scope
  pub delegation : Delegation
  pub termination : Termination
  pub provenance : Provenance

-- the argument of the constructor, where a missing field is `none`
pub record ScopeParams : Type 0 where
  pub decision_type : Option String
  pub domain : Option String
  pub conditions : Option (List Condition)
  pub limits : Option (List Limit)

pub record TerminationParams : Type 0 where
  pub expiry : Option ℕ
  pub revocation_triggers : Option (List String)

pub record ProvenanceParams : Type 0 where
  pub chain : Option (List String)
  pub verifiable : Bool
  pub signature : Option String

pub record UnitParams : Type 0 where
  pub id : String
  pub scope : ScopeParams
  pub delegation : Option Delegation
  pub termination : Option TerminationParams
  pub provenance : Option ProvenanceParams

abbrev or_empty {ℓ} : {A : Type ℓ} → Option (List A) → List A
or_empty none = []
or_empty (some xs) = xs

abbrev or_zero_null : Option ℕ → Option ℕ
or_zero_null none = none
or_zero_null (some n) = if eqb n 0 then none else some n

delegation_of : Option Delegation → Delegation
delegation_of none = record { granted_by = none; contract = none; re_delegation = false }
delegation_of (some d) = record {
  granted_by = or_null d.granted_by;
  contract = or_null d.contract;
  re_delegation = d.re_delegation;
}

termination_of : Option TerminationParams → Termination
termination_of none = record { expiry = none; revocation_triggers = [] }
termination_of (some t) = record {
  expiry = or_zero_null t.expiry;
  revocation_triggers = or_empty t.revocation_triggers;
}

chain_or : String → Option (List String) → List String
chain_or id none = id ∷ []
chain_or id (some chain) = chain

provenance_of : String → Option ProvenanceParams → Provenance
unfolding chain_or
provenance_of id none = record { chain = id ∷ []; verifiable = false; signature = none }
provenance_of id (some p) = record {
  chain = chain_or id p.chain;
  verifiable = p.verifiable;
  signature = or_null p.signature;
}

-- the assignments of the constructor, before it validates
unfoldable pub assign : UnitParams → AuthorityUnit
unfolding delegation_of termination_of provenance_of
assign p = record {
  id = p.id;
  scope = record {
    decision_type = p.scope.decision_type;
    domain = p.scope.domain;
    conditions = or_empty p.scope.conditions;
    limits = or_empty p.scope.limits;
  };
  delegation = delegation_of p.delegation;
  termination = termination_of p.termination;
  provenance = provenance_of p.id p.provenance;
}

abbrev pub found : Option AuthorityUnit → Bool
found none = false
found (some _) = true

-- granted_by === null || granted_by === 'ROOT'
abbrev pub is_root : Option String → Bool
is_root none = true
is_root (some g) = g == "ROOT"

-- registry.get(granted_by)
abbrev pub grantor_of : Table AuthorityUnit → Option String → Option AuthorityUnit
grantor_of registry none = none
grantor_of registry (some g) = lookup g registry

abbrev lacks : List String → Option String → Bool
lacks chain none = true
lacks chain (some g) = not (includes chain g)

unfoldable pub validate_provenance : Table AuthorityUnit → AuthorityUnit → Result Fault Bool
validate_provenance registry u =
    let chain = u.provenance.chain in
    let by = u.delegation.granted_by in
    if is_root by
    then (if not (same (get_last? chain) (some "ROOT")) && not (same (get_last? chain) (some u.id))
        then err chain_not_rooted
        else ok true)
    else if not (includes chain "ROOT") && lacks chain by
    then err no_root_chain
    else if found (grantor_of registry by)
    then ok true
    else err undefined_grantor

-- both maxima are numbers, and the delegate's is the larger
abbrev exceeds : Option ℤ → Option ℤ → Bool
exceeds (some granted) (some requested) = ltb_ℤ granted requested
exceeds none _ = false
exceeds (some granted) none = false

-- grantor.scope.limits.find(l => l.metric === delegateLimit.metric)
abbrev pub limit_for : List Limit → Option String → Option Limit
limit_for limits metric = find? (λ l. same l.metric metric) limits

abbrev pub max_of : Option Limit → Option ℤ
max_of none = none
max_of (some l) = l.max

unfoldable pub check_limits : List Limit → List Limit → Result Fault Bool
check_limits granted [] = ok true
check_limits granted (l ∷ ls) =
    if exceeds (max_of (limit_for granted l.metric)) l.max
    then err limit_exceeded
    else check_limits granted ls

attenuates_from : AuthorityUnit → Option AuthorityUnit → Result Fault Bool
unfolding check_limits
attenuates_from u none = ok false
attenuates_from u (some grantor) =
    if not (same grantor.scope.domain (some "SYSTEM"))
      && not (same grantor.scope.domain u.scope.domain)
    then err domain_mismatch
    else check_limits grantor.scope.limits u.scope.limits

unfoldable pub validate_monotonic_attenuation :
    Table AuthorityUnit → AuthorityUnit → Result Fault Bool
unfolding attenuates_from
validate_monotonic_attenuation registry u =
    let by = u.delegation.granted_by in
    if not (truthy by) || is_root by then ok true else attenuates_from u (grantor_of registry by)

-- new AuthorityUnit(params, registry)
unfoldable pub construct : UnitParams → Table AuthorityUnit → Result Fault AuthorityUnit
construct p registry = do
  let u = assign p
  validate_provenance registry u
  validate_monotonic_attenuation registry u
  ok u

abbrev is_expired : ℕ → Option ℕ → Bool
is_expired now none = false
is_expired now (some e) = not (eqb e 0) && ltb e now

abbrev contradicted : Option Verdict → Bool
contradicted none = false
contradicted (some v) = elim v.is_verified [ none ↦ false | some b ↦ not b ]

-- the loop over `scope.conditions`
unfoldable pub all_hold : Context → List Condition → Result Fault Bool
all_hold context [] = ok true
all_hold context (predicate p ∷ rest) =
    p context >>= λ holds. if holds then all_hold context rest else ok false
all_hold context (expectation text ∷ rest) =
    if starts_with text "EXPECT_NO_CONTRADICTION" && contradicted context.verdict
    then ok false
    else all_hold context rest
all_hold context (other ∷ rest) = all_hold context rest

unfoldable pub evaluate_conditions : ℕ → Context → AuthorityUnit → Result Fault Bool
unfolding all_hold
evaluate_conditions now context u =
    if is_expired now u.termination.expiry then ok false else all_hold context u.scope.conditions
