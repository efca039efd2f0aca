-- ===== src/AuthorityGraph/Unit/Construct.antt =====
-- functions/authority-graph/unit.js: which parameters the constructor of AuthorityUnit accepts.
use sentinel_engine_sovereig.Base.{
  String, Bool, true, false, none, some, List, [], ◌∷◌, ok, >>=-eq-ok, Table, lookup, same_iff,
  includes, get_last?, All, ◌==◌, ◌≡◌, refl, ap, ◌∙◌, ◌≢◌, ◌↔◌, ◌⊎◌, inl, inr, arith, Bool-cases,
  Option-cases,
}
use sentinel_engine_sovereig.Base.Int.{ℤ, ◌≤ℤ◌}
use sentinel_engine_sovereig.AuthorityGraph.Unit.{
  Limit, AuthorityUnit, UnitParams, assign, validate_provenance, check_limits, attenuates_from,
  validate_monotonic_attenuation, construct, is_root, limit_for, max_of,
}

-- Where both the grantor's limit for the metric and the delegate's are numbers, the delegate's is
-- no larger.
abbrev pub WithinGrant : List Limit → Limit → Type 0
WithinGrant granted l =
    (gm dm : ℤ) → max_of (limit_for granted l.metric) ≡ some gm → l.max ≡ some dm → dm ≤ℤ gm

-- The delegate's domain is the grantor's, unless that is SYSTEM, and its limits are within.
pub record Attenuates (grantor u : AuthorityUnit) : Type 0 where
  pub domain : (grantor.scope.domain ≡ some "SYSTEM") ⊎ (grantor.scope.domain ≡ u.scope.domain)
  pub limits : All (WithinGrant grantor.scope.limits) u.scope.limits

-- What a unit needs to stand in a registry: the end of its chain, if it grants itself, and a
-- grantor in the registry that it attenuates, if it does not.
pub data Admissible (registry : Table AuthorityUnit) (u : AuthorityUnit) : Type 0 where
  self_granted :
      is_root u.delegation.granted_by ≡ true
      → (get_last? u.provenance.chain ≡ some "ROOT") ⊎ (get_last? u.provenance.chain ≡ some u.id)
      → Admissible registry u
  delegated :
      (by : String) (grantor : AuthorityUnit)
      → u.delegation.granted_by ≡ some by
      → is_root (some by) ≡ false
      → (includes u.provenance.chain "ROOT" ≡ true) ⊎ (includes u.provenance.chain by ≡ true)
      → lookup by registry ≡ some grantor
      → Attenuates grantor u
      → Admissible registry u

check_limits_sound :
    (granted ls : List Limit) → check_limits granted ls ≡ ok true → All (WithinGrant granted) ls
unfolding check_limits
check_limits_sound granted [] h = tt
check_limits_sound granted (l ∷ ls) h =
    (λ gm dm p q. ground arith, check_limits_sound granted ls (ground arith))

check_limits_complete :
    (granted ls : List Limit) → All (WithinGrant granted) ls → check_limits granted ls ≡ ok true
unfolding check_limits
check_limits_complete granted [] h = refl
check_limits_complete granted (l ∷ ls) h =
    elim (Option-cases (max_of (limit_for granted l.metric))) [
      | inl e ↦ ground (arith, check_limits_complete granted ls h.1)
      | inr (gm, e) ↦ elim (Option-cases l.max) [
        | inl f ↦ ground (arith, check_limits_complete granted ls h.1)
        | inr (dm, f) ↦ ground (arith, h.0 gm dm e f, check_limits_complete granted ls h.1)
      ]
    ]

attenuates_from_sound :
    (u grantor : AuthorityUnit) → attenuates_from u (some grantor) ≡ ok true → Attenuates grantor u
unfolding attenuates_from
attenuates_from_sound u g h = record {
  domain =
      ground
        (arith, same_iff g.scope.domain (some "SYSTEM"), same_iff g.scope.domain u.scope.domain);
  limits = check_limits_sound g.scope.limits u.scope.limits (ground arith);
}

attenuates_from_complete :
    (u grantor : AuthorityUnit) → Attenuates grantor u → attenuates_from u (some grantor) ≡ ok true
unfolding attenuates_from
attenuates_from_complete u g h = ground (
  arith,
  h,
  same_iff g.scope.domain (some "SYSTEM"),
  same_iff g.scope.domain u.scope.domain,
  check_limits_complete g.scope.limits u.scope.limits h.limits,
)

-- A unit that grants itself passes both validations exactly when its chain ends in it or in ROOT.
self_granted-valid :
    (registry : Table AuthorityUnit) (u : AuthorityUnit) {b : Bool}
    → is_root u.delegation.granted_by ≡ true
    → validate_provenance registry u ≡ ok b
    → (get_last? u.provenance.chain ≡ some "ROOT") ⊎ (get_last? u.provenance.chain ≡ some u.id)
unfolding validate_provenance
self_granted-valid registry u root h = ground (
  arith,
  same_iff (get_last? u.provenance.chain) (some "ROOT"),
  same_iff (get_last? u.provenance.chain) (some u.id),
)

delegated-valid :
    (registry : Table AuthorityUnit) (u : AuthorityUnit) (by : String) {b : Bool}
    → u.delegation.granted_by ≡ some by
    → is_root (some by) ≡ false
    → validate_provenance registry u ≡ ok b
    → ((includes u.provenance.chain "ROOT" ≡ true) ⊎ (includes u.provenance.chain by ≡ true))
      × (lookup by registry ≢ none)
unfolding validate_provenance
delegated-valid registry u by e root h = ground arith

delegated-attenuates :
    (registry : Table AuthorityUnit) (u grantor : AuthorityUnit) (by : String) {b : Bool}
    → u.delegation.granted_by ≡ some by
    → is_root (some by) ≡ false
    → (by == "") ≡ false
    → lookup by registry ≡ some grantor
    → validate_monotonic_attenuation registry u ≡ ok b
    → attenuates_from u (some grantor) ≡ ok b
unfolding validate_monotonic_attenuation
delegated-attenuates registry u grantor by e root ne found h = ground arith

check_limits-ok : (gs ls : List Limit) {b : Bool} → check_limits gs ls ≡ ok b → b ≡ true
unfolding check_limits
check_limits-ok gs [] h = ground arith
check_limits-ok gs (l ∷ ls) h = check_limits-ok gs ls (ground arith)

attenuates_from-ok :
    (u grantor : AuthorityUnit) {b : Bool} → attenuates_from u (some grantor) ≡ ok b → b ≡ true
unfolding attenuates_from
attenuates_from-ok u g h = check_limits-ok g.scope.limits u.scope.limits (ground arith)

assign-granted_by :
    (p : UnitParams) (by : String) → (assign p).delegation.granted_by ≡ some by → (by == "") ≡ false
unfolding assign
assign-granted_by p by h = ground arith

validated-Admissible :
    (registry : Table AuthorityUnit) (u : AuthorityUnit) {b c : Bool}
    → ((by : String) → u.delegation.granted_by ≡ some by → (by == "") ≡ false)
    → validate_provenance registry u ≡ ok b
    → validate_monotonic_attenuation registry u ≡ ok c
    → Admissible registry u
validated-Admissible registry u named p m = elim (Bool-cases (is_root u.delegation.granted_by)) [
  | inl root ↦ self_granted root (self_granted-valid registry u root p)
  | inr not_root ↦ elim (Option-cases u.delegation.granted_by) [
    | inl e ↦ ground arith
    | inr (by, e) ↦
        let root : is_root (some by) ≡ false = (rw e at not_root) in
        let (chained, there) = delegated-valid registry u by e root p in
        elim (Option-cases (lookup by registry)) [
          | inl f ↦ absurd (there f)
          | inr (grantor, f) ↦
              let a = delegated-attenuates registry u grantor by e root (named by e) f m in
              let passed = a ∙ ap ok (attenuates_from-ok u grantor a) in
              delegated by grantor e root chained f (attenuates_from_sound u grantor passed)
        ]
  ]
]

Admissible-validated :
    (registry : Table AuthorityUnit) (u : AuthorityUnit)
    → ((by : String) → u.delegation.granted_by ≡ some by → (by == "") ≡ false)
    → Admissible registry u
    → (validate_provenance registry u ≡ ok true)
      × (validate_monotonic_attenuation registry u ≡ ok true)
unfolding validate_provenance validate_monotonic_attenuation
Admissible-validated registry u named (self_granted root ends) = (
  ground (
    arith,
    same_iff (get_last? u.provenance.chain) (some "ROOT"),
    same_iff (get_last? u.provenance.chain) (some u.id),
  ),
  ground arith,
)
Admissible-validated registry u named (delegated by grantor e root chained f att) =
    (ground arith, ground (arith, attenuates_from_complete u grantor att, named by e))

-- The constructor accepts its parameters exactly when the unit that it assigns is admissible in
-- the registry, and it then returns that unit.
pub construct_iff :
    (p : UnitParams) (registry : Table AuthorityUnit) (u : AuthorityUnit)
    → (construct p registry ≡ ok u) ↔ ((assign p ≡ u) × Admissible registry (assign p))
unfolding construct
construct_iff p registry u = (
  λ h.
      let (b, pv, rest) = >>=-eq-ok (validate_provenance registry (assign p)) _ h in
      let (c, ma, done) = >>=-eq-ok (validate_monotonic_attenuation registry (assign p)) _ rest in
      (cc, validated-Admissible registry (assign p) (assign-granted_by p) pv ma),
  λ (e, a).
      let (pv, ma) = Admissible-validated registry (assign p) (assign-granted_by p) a in
      rw (pv, ma) (ap ok e),
)
