-- ===== src/Examples/Units.antt =====
-- functions/authority-graph/unit.js on two units: a desk under a root that grants it a part of its
-- limit.
use sentinel_engine_sovereig.Base.{
  ℕ, String, true, false, Option, none, some, List, [], ◌∷◌, ok, lookup, ◌⧺◌, insert, ◌≡◌, refl,
  ◌↔◌, ◌⊎◌, inr, arith,
}
use sentinel_engine_sovereig.Base.Int.{pos}
use sentinel_engine_sovereig.AuthorityGraph.Unit.{
  Limit, Delegation, AuthorityUnit, assign, construct, validate_provenance,
  validate_monotonic_attenuation,
}
use sentinel_engine_sovereig.AuthorityGraph.Unit.Construct.{Attenuates, Admissible, construct_iff}
use sentinel_engine_sovereig.AuthorityGraph.Loader.{
  Config, Row, UnitLoader, Query, unit_params, hydrate, load_fresh, load_graph,
}
use sentinel_engine_sovereig.AuthorityGraph.Loader.Chains.{
  Chain, here, grant, IsChained, IsTrusted, Chain-domain, load_graph-IsTrusted,
}
use sentinel_engine_sovereig.AuthorityGraph.Loader.Cache.{load_crosses_tenants}

abbrev usd : ℕ → List Limit
usd n = record { metric = some "usd"; max = some (pos n) } ∷ []

abbrev config : ℕ → Option Delegation → List String → Config
config n delegation chain = record {
  scope = some (record {
    decision_type = none;
    domain = some "FINANCE";
    conditions = none;
    limits = some (usd n);
  });
  delegation = delegation;
  termination = none;
  chain = some chain;
}

abbrev pub root_row : Row
root_row = record { unit_id = "root"; config = config 100 none ("root" ∷ []); signature = none }

abbrev pub desk_row : Row
desk_row = record {
  unit_id = "desk";
  config =
      config 40 (some (record { granted_by = some "root"; contract = none; re_delegation = false }))
        ("desk" ∷ "root" ∷ []);
  signature = none;
}

abbrev pub root : AuthorityUnit
root = record {
  id = "root";
  scope = record {
    decision_type = none;
    domain = some "FINANCE";
    conditions = [];
    limits = usd 100;
  };
  delegation = record { granted_by = none; contract = none; re_delegation = false };
  termination = record { expiry = none; revocation_triggers = [] };
  provenance = record { chain = "root" ∷ []; verifiable = true; signature = none };
}

abbrev pub desk : AuthorityUnit
desk = record {
  id = "desk";
  scope = record {
    decision_type = none;
    domain = some "FINANCE";
    conditions = [];
    limits = usd 40;
  };
  delegation = record { granted_by = some "root"; contract = none; re_delegation = false };
  termination = record { expiry = none; revocation_triggers = [] };
  provenance = record { chain = "desk" ∷ "root" ∷ []; verifiable = true; signature = none };
}

-- the rows of the recursive query for the desk, the desk first
abbrev pub desk_query : Query
desk_query unit_id tenant_id = ok (desk_row ∷ root_row ∷ [])

abbrev pub empty_loader : UnitLoader
empty_loader = record { cache = [] }

empty_loader-IsTrusted : IsTrusted empty_loader
unfolding lookup
empty_loader-IsTrusted = record { at_key = λ k e u found is_unit. cc }

desk-Attenuates : Attenuates root desk
desk-Attenuates = record { domain = inr refl; limits = (λ gm dm p q. ground arith, tt) }

desk-Chain : Chain root desk
desk-Chain = grant desk (here refl) refl desk-Attenuates

Chain-domain_example : (root.scope.domain ≡ some "SYSTEM") ⊎ (root.scope.domain ≡ desk.scope.domain)
Chain-domain_example = Chain-domain desk-Chain

construct_iff_example : (construct (unit_params desk_row) (("root", root) ∷ []) ≡ ok desk) ↔ (
    (assign (unit_params desk_row) ≡ desk)
    × Admissible (("root", root) ∷ []) (assign (unit_params desk_row)))
construct_iff_example = construct_iff (unit_params desk_row) (("root", root) ∷ []) desk

load_graph-IsTrusted_example :
    IsTrusted (load_graph desk_query "desk" "acme" 10 20 empty_loader).0
    × ((u : AuthorityUnit)
        → (load_graph desk_query "desk" "acme" 10 20 empty_loader).1 ≡ ok (some u)
        → IsChained u)
load_graph-IsTrusted_example =
    load_graph-IsTrusted desk_query "desk" "acme" 10 20 empty_loader empty_loader-IsTrusted

desk_loaded : (load_fresh desk_query "desk" "acme:eu" 20 empty_loader).1 ≡ ok (some desk)
unfolding load_fresh hydrate construct insert lookup validate_provenance assign unit_params
    validate_monotonic_attenuation
desk_loaded = refl

load_crosses_tenants_example :
    (load_graph desk_query
      ("eu" ⧺ ":" ⧺ "desk")
      "acme"
      300
      400
      (load_fresh desk_query "desk" ("acme" ⧺ ":" ⧺ "eu") 20 empty_loader).0).1
    ≡ ok (some desk)
load_crosses_tenants_example =
    load_crosses_tenants desk_query desk_query "acme" "eu" "desk" 20 300 400 empty_loader
      (some desk) desk_loaded (omega arith)
