-- ===== src/AuthorityGraph/Loader.antt =====
-- functions/authority-graph/unit.js, the class UnitLoader: a cache of units, and the hydration of a
-- unit with its grantors from the rows of the recursive query. The query is a parameter.
pub mod Chains
pub mod Cache
use mathlib.Core.List.{reverse}
use sentinel_engine_sovereig.Base.{
  ℕ, String, Bool, true, false, Option, none, some, List, [], ◌∷◌, Result, ok, err, ◌>>=◌, Table,
  lookup, insert, ltb, ◌-◌, ◌==◌, ◌⧺◌, if◌then◌else◌,
}
use sentinel_engine_sovereig.AuthorityGraph.Unit.{
  Fault, unit_not_found, Delegation, AuthorityUnit, ScopeParams, TerminationParams,
  ProvenanceParams, UnitParams, construct,
}

-- the column `config` of a row
pub record Config : Type 0 where
  pub scope : Option ScopeParams
  pub delegation : Option Delegation
  pub termination : Option TerminationParams
  pub chain : Option (List String)

pub record Row : Type 0 where
  pub unit_id : String
  pub config : Config
  pub signature : Option String

pub record CacheEntry : Type 0 where
  pub timestamp : ℕ
  pub unit : Option AuthorityUnit

pub record UnitLoader : Type 0 where
  pub cache : Table CacheEntry

abbrev pub ttl_ms : ℕ
ttl_ms = 300000

unfoldable pub cache_key : String → String → String
cache_key tenant_id unit_id = tenant_id ⧺ ":" ⧺ unit_id

scope_or_empty : Option ScopeParams → ScopeParams
scope_or_empty none = record {
  decision_type = none;
  domain = none;
  conditions = none;
  limits = none;
}
scope_or_empty (some s) = s

chain_or_self : String → Option (List String) → List String
chain_or_self unit_id none = unit_id ∷ []
chain_or_self unit_id (some chain) = chain

unfoldable pub unit_params : Row → UnitParams
unfolding scope_or_empty chain_or_self
unit_params row = record {
  id = row.unit_id;
  scope = scope_or_empty row.config.scope;
  delegation = row.config.delegation;
  termination = row.config.termination;
  provenance = some (record {
    chain = some (chain_or_self row.unit_id row.config.chain);
    verifiable = true;
    signature = row.signature;
  });
}

-- the loop over the reversed rows: the registry of the units so far, and the target if it was met
unfoldable pub hydrate :
    String
    → List Row
    → Table AuthorityUnit
    → Option AuthorityUnit
    → Result Fault (Option AuthorityUnit)
hydrate unit_id [] registry target = ok target
hydrate unit_id (row ∷ rows) registry target = construct (unit_params row) registry >>= λ unit.
    hydrate unit_id rows (insert row.unit_id unit registry)
      (if row.unit_id == unit_id then some unit else target)

abbrev pub Query : Type 0
Query = String → String → Result Fault (List Row)

hydrate_rows : String → List Row → Result Fault (Option AuthorityUnit)
hydrate_rows unit_id [] = err unit_not_found
hydrate_rows unit_id (row ∷ rows) = hydrate unit_id (reverse (row ∷ rows)) [] none

-- a miss: query, hydrate, and store at the time `stored`
store_result :
    UnitLoader
    → String
    → ℕ
    → Result Fault (Option AuthorityUnit)
    → UnitLoader × Result Fault (Option AuthorityUnit)
store_result loader key stored (err fault) = (loader, err fault)
store_result loader key stored (ok unit) = (
  record { cache = insert key (record { timestamp = stored; unit = unit }) loader.cache },
  ok unit,
)

unfoldable pub load_fresh :
    Query → String → String → ℕ → UnitLoader → UnitLoader × Result Fault (Option AuthorityUnit)
unfolding store_result hydrate_rows
load_fresh query unit_id tenant_id stored loader =
    store_result loader (cache_key tenant_id unit_id) stored
      (query unit_id tenant_id >>= hydrate_rows unit_id)

serve_cached :
    Query
    → String
    → String
    → ℕ
    → ℕ
    → UnitLoader
    → Option CacheEntry
    → UnitLoader × Result Fault (Option AuthorityUnit)
serve_cached query unit_id tenant_id now stored loader none =
    load_fresh query unit_id tenant_id stored loader
serve_cached query unit_id tenant_id now stored loader (some cached) =
    if ltb (now - cached.timestamp) ttl_ms
    then (loader, ok cached.unit)
    else load_fresh query unit_id tenant_id stored loader

-- `now` is the time at which the cache is read, `stored` that at which it is written. A clock that
-- went back gives a negative age, which is below the limit as 0 is.
unfoldable pub load_graph :
    Query → String → String → ℕ → ℕ → UnitLoader → UnitLoader × Result Fault (Option AuthorityUnit)
unfolding serve_cached
load_graph query unit_id tenant_id now stored loader =
    serve_cached query unit_id tenant_id now stored loader
      (lookup (cache_key tenant_id unit_id) loader.cache)
