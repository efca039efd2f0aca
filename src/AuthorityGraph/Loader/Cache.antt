-- ===== src/AuthorityGraph/Loader/Cache.antt =====
-- functions/authority-graph/unit.js: what the cache of the class UnitLoader serves, and for how long.
use text.Mathlib.TextLemmas.{append_assoc}
use sentinel_engine_sovereig.Base.{
  lt→ltb, ℕ, String, Option, none, some, Result, ok, err, ◌+◌, ◌<◌, ◌≤◌, ◌-◌, lookup,
  lookup-insert_self, ◌≡◌, ap, ◌⧺◌, arith,
}
use sentinel_engine_sovereig.AuthorityGraph.Unit.{Fault, AuthorityUnit}
use sentinel_engine_sovereig.AuthorityGraph.Loader.{
  CacheEntry, UnitLoader, Query, cache_key, load_fresh, store_result, load_graph, ttl_ms,
}

-- What a load does, for every state of the cache: a young entry is served, whatever the database
-- now says, and the loader does not change; with no entry, or one of five minutes or more, the
-- database is asked.
load_graph_window :
    (query : Query) (unit_id tenant_id : String) (now stored : ℕ) (loader : UnitLoader)
    → (lookup (cache_key tenant_id unit_id) loader.cache ≡ none
        → load_graph query unit_id tenant_id now stored loader
          ≡ load_fresh query unit_id tenant_id stored loader)
      × ((e : CacheEntry)
          → lookup (cache_key tenant_id unit_id) loader.cache ≡ some e
          → (now < e.timestamp + ttl_ms
              → load_graph query unit_id tenant_id now stored loader ≡ (loader, ok e.unit))
            × (e.timestamp + ttl_ms ≤ now
                → load_graph query unit_id tenant_id now stored loader
                  ≡ load_fresh query unit_id tenant_id stored loader))
unfolding load_graph
load_graph_window query unit_id tenant_id now stored loader = (
  λ h. rw h,
  λ e h. (
    λ young. rw (h, lt→ltb (now - e.timestamp) ttl_ms (omega arith)),
    λ old. rw h (ground arith),
  ),
)

store_result-kept :
    (loader : UnitLoader) (key : String) (stored : ℕ) (r : Result Fault (Option AuthorityUnit))
    (unit : Option AuthorityUnit)
    → (store_result loader key stored r).1 ≡ ok unit
    → lookup key (store_result loader key stored r).0.cache
      ≡ some (record { timestamp = stored; unit = unit })
unfolding store_result
store_result-kept loader key stored (err f) unit h = cc
store_result-kept loader key stored (ok u) unit h =
    ground (arith, lookup-insert_self key (record { timestamp = stored; unit = u }) loader.cache)

load_fresh-kept :
    (query : Query) (unit_id tenant_id : String) (stored : ℕ) (loader : UnitLoader)
    (unit : Option AuthorityUnit)
    → (load_fresh query unit_id tenant_id stored loader).1 ≡ ok unit
    → lookup
        (cache_key tenant_id unit_id)
        (load_fresh query unit_id tenant_id stored loader).0.cache
      ≡ some (record { timestamp = stored; unit = unit })
unfolding load_fresh
load_fresh-kept query unit_id tenant_id stored loader unit h =
    store_result-kept loader (cache_key tenant_id unit_id) stored _ unit h

-- Where two pairs of tenant and unit have one key, a load for the second, within five minutes of a
-- load for the first, returns the first's unit and does not ask the database. With both pairs the
-- same: a revocation in between is not seen.
pub load_again :
    (query later : Query) (unit_id tenant_id unit_id' tenant_id' : String) (stored soon after : ℕ)
    (loader : UnitLoader) (unit : Option AuthorityUnit)
    → cache_key tenant_id unit_id ≡ cache_key tenant_id' unit_id'
    → (load_fresh query unit_id tenant_id stored loader).1 ≡ ok unit
    → soon < stored + ttl_ms
    → (load_graph later unit_id' tenant_id' soon after
        (load_fresh query unit_id tenant_id stored loader).0).1
      ≡ ok unit
load_again query later unit_id tenant_id unit_id' tenant_id' stored soon after loader unit e h s =
    let kept = load_fresh-kept query unit_id tenant_id stored loader unit h in
    let window =
      load_graph_window later unit_id' tenant_id' soon after
        (load_fresh query unit_id tenant_id stored loader).0 in
    ap (λ (r : UnitLoader × Result Fault (Option AuthorityUnit)). r.1)
      ((window.1 (record { timestamp = stored; unit = unit }) (rw e at kept)).0 s)

cache_key_shared : (a b c : String) → cache_key (a ⧺ ":" ⧺ b) c ≡ cache_key a (b ⧺ ":" ⧺ c)
unfolding cache_key
cache_key_shared a b c = simp append_assoc

-- The cache does not separate tenants whose names hold a colon: what was loaded as unit c of the
-- tenant a:b is served to the tenant a under the unit name b:c, without asking the database, for
-- five minutes.
pub load_crosses_tenants :
    (query later : Query) (a b c : String) (stored soon after : ℕ) (loader : UnitLoader)
    (unit : Option AuthorityUnit)
    → (load_fresh query c (a ⧺ ":" ⧺ b) stored loader).1 ≡ ok unit
    → soon < stored + ttl_ms
    → (load_graph later
        (b ⧺ ":" ⧺ c)
        a
        soon
        after
        (load_fresh query c (a ⧺ ":" ⧺ b) stored loader).0).1
      ≡ ok unit
load_crosses_tenants query later a b c stored soon after loader unit =
    load_again query later c (a ⧺ ":" ⧺ b) (b ⧺ ":" ⧺ c) a stored soon after loader unit
      (cache_key_shared a b c)
