-- ===== src/AuthorityGraph/Reduction/Minimum.antt =====
-- functions/authority-graph/reduction.js: what a reduced unit can still do.
use Prim.Native.String.{count}
use text.Mathlib.TextLemmas.{length-append}
use sentinel_engine_sovereig.Base.{
  ℕ, String, false, Option, none, some, List, [], ◌∷◌, ◌++◌, map, ok, Table, lookup, insert,
  lookup-insert_self, same_iff, ◌==◌, All, ◌≤◌, lookup-insert_ne, ◌≡◌, refl, ◌≢◌, ap, arith,
}
use sentinel_engine_sovereig.Base.Int.{pos}
use sentinel_engine_sovereig.AuthorityGraph.Unit.{
  Context, Condition, predicate, expectation, other, Limit, AuthorityUnit, all_hold,
  evaluate_conditions,
}
use sentinel_engine_sovereig.AuthorityGraph.Arbitration.{
  Kms, Action, LegibilityRecord, denied_domain_mismatch, domain_tiers,
}
use sentinel_engine_sovereig.AuthorityGraph.Reduction.{
  Sign, GovernanceFinding, zero_limit, system_failsafe, minimized_domain, reduce_scope,
  apply_reduction, start_finding, contract_to_minimum,
}

all_hold-failsafe :
    (context : Context) (cs : List Condition)
    → all_hold context (cs ++ system_failsafe ∷ []) ≡ all_hold context cs
unfolding all_hold
all_hold-failsafe context [] = refl
all_hold-failsafe context (predicate p ∷ cs) = ground (arith, all_hold-failsafe context cs)
all_hold-failsafe context (expectation text ∷ cs) = ground (arith, all_hold-failsafe context cs)
all_hold-failsafe context (other ∷ cs) = all_hold-failsafe context cs

zeroed : (ls : List Limit) → All (λ l. l.max ≡ some (pos 0)) (map zero_limit ls)
zeroed [] = tt
zeroed (l ∷ ls) = (refl, zeroed ls)

metrics-zero_limit :
    (ls : List Limit)
    → map (λ (l : Limit). l.metric) (map zero_limit ls) ≡ map (λ (l : Limit). l.metric) ls
metrics-zero_limit [] = refl
metrics-zero_limit (l ∷ ls) =
    ap (λ (ms : List (Option String)). l.metric ∷ ms) (metrics-zero_limit ls)

abbrev size : Option String → ℕ
size none = 0
size (some t) = count t

abbrev suffix : String
suffix = "_MINIMIZED_SAFE_MODE"

size_minimized : (d : Option String) → 20 ≤ size (some (minimized_domain d))
size_minimized none = omega arith
size_minimized (some d) = omega (arith, length-append d suffix)

minimized-ne : (d : Option String) → some (minimized_domain d) ≢ d
minimized-ne none e = ground arith
minimized-ne (some d) e = omega (arith, ap size e, length-append d suffix)

minimized-ne-system : (d : Option String) → some (minimized_domain d) ≢ some "SYSTEM"
minimized-ne-system d e = omega (arith, ap size e, size_minimized d)

-- What is left of a unit u in its reduced form v: no numeric limit above 0 under the same metrics,
-- conditions that hold exactly when they did, and a domain under which every request for the old
-- one is denied.
pub record IsMinimum (u v : AuthorityUnit) : Type 0 where
  pub limits : All (λ (l : Limit). l.max ≡ some (pos 0)) v.scope.limits
  pub metrics :
      map (λ (l : Limit). l.metric) v.scope.limits ≡ map (λ (l : Limit). l.metric) u.scope.limits
  pub conditions :
      (now : ℕ) (context : Context)
      → evaluate_conditions now context v ≡ evaluate_conditions now context u
  pub refused :
      (kms : Option Kms) (now : ℕ) (context : Context) (action : Action) (r : LegibilityRecord)
      → action.domain ≡ u.scope.domain
      → (domain_tiers kms now context action v r).status ≡ denied_domain_mismatch

reduced-refused :
    (u : AuthorityUnit) (kms : Option Kms) (now : ℕ) (context : Context) (action : Action)
    (r : LegibilityRecord)
    → action.domain ≡ u.scope.domain
    → (domain_tiers kms now context action (record u { scope = reduce_scope u.scope }) r).status
      ≡ denied_domain_mismatch
unfolding domain_tiers reduce_scope
reduced-refused u kms now context action r e = ground (
  arith,
  same_iff (some (minimized_domain u.scope.domain)) action.domain,
  same_iff (some (minimized_domain u.scope.domain)) (some "SYSTEM"),
  minimized-ne u.scope.domain,
  minimized-ne-system u.scope.domain,
)

conditions-reduced :
    (u : AuthorityUnit) (now : ℕ) (context : Context)
    → evaluate_conditions now context (record u { scope = reduce_scope u.scope })
      ≡ evaluate_conditions now context u
unfolding evaluate_conditions reduce_scope
conditions-reduced u now context = rw (all_hold-failsafe context u.scope.conditions)

reduced-IsMinimum : (u : AuthorityUnit) → IsMinimum u (record u { scope = reduce_scope u.scope })
reduced-IsMinimum u = record {
  limits = unfold reduce_scope in zeroed u.scope.limits;
  metrics = unfold reduce_scope in metrics-zero_limit u.scope.limits;
  conditions = conditions-reduced u;
  refused = reduced-refused u;
}

-- With a registry, which the program does not pass, a reduction of a unit that it holds always succeeds,
-- whether or not its finding can be signed: the registry then holds the minimum of the unit under the
-- same name, and every other unit as before.
contract_to_minimum_lem :
    (finding_id timestamp unit_id trigger : String) (registry : Table AuthorityUnit)
    (sign : Option Sign) (u : AuthorityUnit)
    → lookup unit_id registry ≡ some u
    → (registry' : Table AuthorityUnit) × (f : GovernanceFinding) × (v : AuthorityUnit)
      × (contract_to_minimum finding_id timestamp (some registry) unit_id trigger sign
          ≡ ok (registry', f))
      × (lookup unit_id registry' ≡ some v)
      × IsMinimum u v
      × ((k : String) → (unit_id == k) ≡ false → lookup k registry' ≡ lookup k registry)
unfolding contract_to_minimum
contract_to_minimum_lem finding_id timestamp unit_id trigger registry sign u h =
    let v = record u { scope = reduce_scope u.scope } in
    (
      insert unit_id v registry,
      (apply_reduction sign (start_finding finding_id timestamp unit_id trigger) unit_id registry
          (some u)).1,
      v,
      rw h,
      lookup-insert_self unit_id v registry,
      reduced-IsMinimum u,
      λ k ne. lookup-insert_ne unit_id k v registry ne,
    )
