-- ===== src/AuthorityGraph/Loader/Chains.antt =====
-- functions/authority-graph/unit.js: a hydrated unit stands at the end of a chain of grants.
use mathlib.Core.List.{reverse}
use mathlib.Core.Path.{subst}
use sentinel_engine_sovereig.Base.{
  ℕ, String, true, Option, none, some, List, [], ◌∷◌, Result, ok, err, ◌>>=◌, >>=-eq-ok, Table,
  lookup, insert, lookup-insert, ◌==◌, eq_iff, if◌then◌else◌, ltb, ◌-◌, ◌≡◌, refl, ap, sym, ◌∙◌,
  ◌⊎◌, inl, inr, arith, Bool-cases,
}
use sentinel_engine_sovereig.AuthorityGraph.Unit.{Fault, AuthorityUnit, assign, construct, is_root}
use sentinel_engine_sovereig.AuthorityGraph.Unit.Construct.{
  Attenuates, Admissible, self_granted, delegated, construct_iff,
}
use sentinel_engine_sovereig.AuthorityGraph.Loader.{
  Row, CacheEntry, UnitLoader, Query, unit_params, hydrate, hydrate_rows, load_fresh, store_result,
  load_graph, serve_cached, cache_key, ttl_ms,
}

-- A chain of grants from a unit that grants itself, each attenuating the one before it.
pub data Chain (root : AuthorityUnit) : AuthorityUnit → Type 0 where
  here : is_root root.delegation.granted_by ≡ true → Chain root root
  grant :
      {g : AuthorityUnit} (u : AuthorityUnit)
      → Chain root g
      → u.delegation.granted_by ≡ some g.id
      → Attenuates g u
      → Chain root u

abbrev pub IsChained : AuthorityUnit → Type 0
IsChained u = (root : AuthorityUnit) × Chain root u

-- In a chain the domain never changes, unless its root is a SYSTEM unit.
pub Chain-domain :
    {root u : AuthorityUnit}
    → Chain root u
    → (root.scope.domain ≡ some "SYSTEM") ⊎ (root.scope.domain ≡ u.scope.domain)
Chain-domain (here r) = inr refl
Chain-domain (grant u c by a) = ground (arith, Chain-domain c, a.domain)

-- What the registry holds between two rounds of the loop.
record IsGrounded (registry : Table AuthorityUnit) : Type 0 where
  at_key : (k : String) (u : AuthorityUnit) → lookup k registry ≡ some u → (u.id ≡ k) × IsChained u

IsGrounded-empty : IsGrounded []
unfolding lookup
IsGrounded-empty = record { at_key = λ k u h. cc }

id-construct :
    (row : Row) (registry : Table AuthorityUnit) (u : AuthorityUnit)
    → assign (unit_params row) ≡ u
    → u.id ≡ row.unit_id
unfolding assign unit_params
id-construct row registry u e = sym (ap (λ (v : AuthorityUnit). v.id) e)

Admissible-IsChained :
    (registry : Table AuthorityUnit) (u : AuthorityUnit)
    → IsGrounded registry
    → Admissible registry u
    → IsChained u
Admissible-IsChained registry u g (self_granted root ends) = (u, here root)
Admissible-IsChained registry u g (delegated by grantor e root chained found att) =
    let (named, origin) = g.at_key by grantor found in
    let (start, c) = origin in (start, grant u c (e ∙ ap some (sym named)) att)

IsGrounded-insert :
    (registry : Table AuthorityUnit) (k : String) (u : AuthorityUnit)
    → IsGrounded registry
    → u.id ≡ k
    → IsChained u
    → IsGrounded (insert k u registry)
IsGrounded-insert registry k u g named c = record {
  at_key = λ j v h. elim (Bool-cases (k == j)) [
    | inl e ↦
        let v_eq : u ≡ v = ground (arith, lookup-insert k j u registry) in
        subst (λ x. (x.id ≡ j) × IsChained x) v_eq (named ∙ (eq_iff k j).0 e, c)
    | inr e ↦ g.at_key j v (ground (arith, lookup-insert k j u registry))
  ];
}

-- What is known of the target of the loop.
abbrev IsTarget : String → Option AuthorityUnit → Type 0
IsTarget unit_id target = (u : AuthorityUnit) → target ≡ some u → (u.id ≡ unit_id) × IsChained u

IsTarget-next :
    (unit_id k : String) (target : Option AuthorityUnit) (u : AuthorityUnit)
    → IsTarget unit_id target
    → u.id ≡ k
    → IsChained u
    → IsTarget unit_id (if k == unit_id then some u else target)
IsTarget-next unit_id k target u t named c v h = elim (Bool-cases (k == unit_id)) [
  | inl e ↦
      let v_eq : u ≡ v = ground arith in
      subst (λ x. (x.id ≡ unit_id) × IsChained x) v_eq (named ∙ (eq_iff k unit_id).0 e, c)
  | inr e ↦ t v (ground arith)
]

hydrate-IsTarget :
    (unit_id : String) (rows : List Row) (registry : Table AuthorityUnit)
    (target t : Option AuthorityUnit)
    → IsGrounded registry
    → IsTarget unit_id target
    → hydrate unit_id rows registry target ≡ ok t
    → IsTarget unit_id t
unfolding hydrate
hydrate-IsTarget unit_id [] registry target t g known h = λ u e. known u (ground arith)
hydrate-IsTarget unit_id (row ∷ rows) registry target t g known h =
    let (u, made, rest) = >>=-eq-ok (construct (unit_params row) registry) _ h in
    let (e, admissible) = (construct_iff (unit_params row) registry u).0 made in
    let named = id-construct row registry u e in
    let c = subst IsChained e (Admissible-IsChained registry _ g admissible) in
    hydrate-IsTarget unit_id rows (insert row.unit_id u registry)
      (if row.unit_id == unit_id then some u else target) t
      (IsGrounded-insert registry row.unit_id u g named c)
      (IsTarget-next unit_id row.unit_id target u known named c) rest

hydrate_rows-IsTarget :
    (unit_id : String) (rows : List Row) (t : Option AuthorityUnit)
    → hydrate_rows unit_id rows ≡ ok t
    → IsTarget unit_id t
unfolding hydrate_rows
hydrate_rows-IsTarget unit_id [] t h = λ u e. cc
hydrate_rows-IsTarget unit_id (row ∷ rows) t h =
    hydrate-IsTarget unit_id (reverse (row ∷ rows)) [] none t IsGrounded-empty (λ u e. cc) h

-- Every unit in the cache stands at the end of a chain of grants.
pub record IsTrusted (loader : UnitLoader) : Type 0 where
  pub at_key :
      (k : String) (e : CacheEntry) (u : AuthorityUnit)
      → lookup k loader.cache ≡ some e
      → e.unit ≡ some u
      → IsChained u

abbrev Loaded : UnitLoader × Result Fault (Option AuthorityUnit) → Type 0
Loaded r = IsTrusted r.0 × ((u : AuthorityUnit) → r.1 ≡ ok (some u) → IsChained u)

store_result-Loaded :
    (loader : UnitLoader) (key : String) (stored : ℕ) (r : Result Fault (Option AuthorityUnit))
    → IsTrusted loader
    → ((u : AuthorityUnit) → r ≡ ok (some u) → IsChained u)
    → Loaded (store_result loader key stored r)
unfolding store_result
store_result-Loaded loader key stored (err f) t h = (t, h)
store_result-Loaded loader key stored (ok unit) t h = (
  record {
    at_key = λ k e u found is_unit. elim (Bool-cases (key == k)) [
      | inl m ↦ h u (
          ground
            (arith, lookup-insert key k (record { timestamp = stored; unit = unit }) loader.cache))
      | inr m ↦
          t.at_key k e u
            (ground (
              arith,
              lookup-insert key k (record { timestamp = stored; unit = unit }) loader.cache,
            ))
            is_unit
    ];
  },
  h,
)

load_fresh-Loaded :
    (query : Query) (unit_id tenant_id : String) (stored : ℕ) (loader : UnitLoader)
    → IsTrusted loader
    → Loaded (load_fresh query unit_id tenant_id stored loader)
unfolding load_fresh
load_fresh-Loaded query unit_id tenant_id stored loader t =
    store_result-Loaded loader (cache_key tenant_id unit_id) stored
      (query unit_id tenant_id >>= hydrate_rows unit_id) t
      λ u h.
        let (rows, _, made) = >>=-eq-ok (query unit_id tenant_id) (hydrate_rows unit_id) h in
        (hydrate_rows-IsTarget unit_id rows (some u) made u refl).1

-- Whatever rows the database returns, a unit that the loader hands out stands at the end of a
-- chain of grants from a unit that grants itself, each within the one before, and so does every
-- unit that it leaves in the cache, where this held of the cache before.
pub load_graph-IsTrusted :
    (query : Query) (unit_id tenant_id : String) (now stored : ℕ) (loader : UnitLoader)
    → IsTrusted loader
    → IsTrusted (load_graph query unit_id tenant_id now stored loader).0
      × ((u : AuthorityUnit)
          → (load_graph query unit_id tenant_id now stored loader).1 ≡ ok (some u)
          → IsChained u)
unfolding load_graph
load_graph-IsTrusted query unit_id tenant_id now stored loader t =
    go (lookup (cache_key tenant_id unit_id) loader.cache) refl
  where
    go :
        (found : Option CacheEntry)
        → lookup (cache_key tenant_id unit_id) loader.cache ≡ found
        → Loaded (serve_cached query unit_id tenant_id now stored loader found)
    go none e = load_fresh-Loaded query unit_id tenant_id stored loader t
    go (some cached) e = elim (Bool-cases (ltb (now - cached.timestamp) ttl_ms)) [
      | inl young ↦ rw young (t, λ u h. t.at_key _ cached u e (ground arith))
      | inr old ↦ rw old (load_fresh-Loaded query unit_id tenant_id stored loader t)
    ]
