-- ===== src/KeyRotation/Refines.antt =====
-- functions/dilithium-rotation.js: what the rotations promise, as a counter for each tenant, and the
-- lock of a shard.
use sentinel_engine_sovereig.Base.{
  ℕ, zero, suc, String, false, Option, none, some, List, [], ◌∷◌, Result, ok, err, ◌==◌, eq_iff,
  eq_refl, if◌then◌else◌, ◌≡◌, refl, ap, sym, subst, ◌∙◌, arith, Bool-cases, inl, inr,
}
use sentinel_engine_sovereig.KeyRotation.{
  Fault, KeyRow, Shard, Hub, Env, Rotation, keys_of, current_key, next_version, promoted,
  rotate_tenant_key, commit, find_shard, set_shard,
}
use sentinel_engine_sovereig.KeyRotation.History.{
  History, Retired, next_version-History, History-sweep, keys_of-deprecate_self,
  keys_of-deprecate_ne,
}
use sentinel_engine_sovereig.KeyRotation.Outcomes.{Rotated, rotate-Rotated, after_update}

-- how many keys a tenant has had
abbrev pub Ledger : Type 0
Ledger = String → ℕ

abbrev pub Represents : Hub → Ledger → Type 0
Represents hub ledger =
    (tenant : String) → History (ledger tenant) (keys_of tenant hub.tenant_crypto_configs)

-- The promise of one call: a rotation that succeeds gives the tenant one version more, and any
-- other call none.
abbrev pub tally : Result Fault Rotation → String → Ledger → Ledger
tally (ok done) tenant ledger other = if other == tenant then suc (ledger other) else ledger other
tally (err fault) tenant ledger other = ledger other

keys_of-promoted_self :
    (env : Env) (show : ℕ → String) (tenant public : String) (version : ℕ) (rows : List KeyRow)
    → keys_of tenant (promoted env show tenant version public ∷ rows)
      ≡ promoted env show tenant version public ∷ keys_of tenant rows
unfolding keys_of promoted
keys_of-promoted_self env show tenant public version rows = ground (arith, eq_refl tenant)

keys_of-promoted_ne :
    (env : Env) (show : ℕ → String) (tenant other public : String) (version : ℕ)
    (rows : List KeyRow)
    → (other == tenant) ≡ false
    → keys_of other (promoted env show tenant version public ∷ rows) ≡ keys_of other rows
unfolding keys_of promoted
keys_of-promoted_ne env show tenant other public version rows apart =
    ground (arith, eq_iff other tenant, eq_iff tenant other)

-- the older keys of a tenant after the UPDATE
after_update-Retired :
    (tenant : String) (now n : ℕ) (rows : List KeyRow) (current : Option KeyRow)
    → current_key tenant rows ≡ current
    → History n (keys_of tenant rows)
    → Retired n (keys_of tenant (after_update current tenant now rows))
unfolding next_version
after_update-Retired tenant now n rows (some key) at h =
    rw (keys_of-deprecate_self tenant now rows) (History-sweep now n (keys_of tenant rows) h)
after_update-Retired tenant now zero rows none at h = at_zero (keys_of tenant rows) h
  where
    at_zero : (own : List KeyRow) → History 0 own → Retired 0 own
    at_zero [] h = tt
    at_zero (row ∷ own) h = h
after_update-Retired tenant now (suc n) rows none at h =
    let one : next_version (current_key tenant rows) ≡ 1 = rw at refl in
    absurd (omega (arith, one, next_version-History (suc n) tenant rows h))

keys_of-after_update_ne :
    (tenant other : String) (now : ℕ) (rows : List KeyRow) (current : Option KeyRow)
    → (other == tenant) ≡ false
    → keys_of other (after_update current tenant now rows) ≡ keys_of other rows
keys_of-after_update_ne tenant other now rows none apart = refl
keys_of-after_update_ne tenant other now rows (some key) apart =
    keys_of-deprecate_ne tenant other now rows apart

-- the tenant whose key is rotated
same_tenant :
    (env : Env) (show : ℕ → String) (tenant : String) (before after : Hub) (done : Rotation) (n : ℕ)
    → Rotated env show tenant before after done
    → History n (keys_of tenant before.tenant_crypto_configs)
    → History (suc n) (keys_of tenant after.tenant_crypto_configs)
unfolding promoted
same_tenant env show tenant before after done n r h =
    let rows = before.tenant_crypto_configs in
    rw
      (
        r.keys,
        keys_of-promoted_self env show tenant r.public done.version
            (after_update (current_key tenant rows) tenant env.now rows),
      )
      (
        r.version ∙ next_version-History n tenant rows h,
        refl,
        λ e. cc,
        after_update-Retired tenant env.now n rows (current_key tenant rows) refl h,
      )

other_tenant :
    (env : Env) (show : ℕ → String) (tenant other : String) (before after : Hub) (done : Rotation)
    → Rotated env show tenant before after done
    → (other == tenant) ≡ false
    → keys_of other after.tenant_crypto_configs ≡ keys_of other before.tenant_crypto_configs
other_tenant env show tenant other before after done r apart =
    let rows = before.tenant_crypto_configs in
    ap (keys_of other) r.keys
    ∙ keys_of-promoted_ne env show tenant other r.public done.version
        (after_update (current_key tenant rows) tenant env.now rows) apart
    ∙ keys_of-after_update_ne tenant other env.now rows (current_key tenant rows) apart

pub rotate_failed :
    (env : Env) (show : ℕ → String) (tenant : String) (before after : Hub) (fault : Fault)
    → rotate_tenant_key env show tenant before ≡ (after, err fault)
    → before ≡ after
unfolding rotate_tenant_key commit
rotate_failed env show tenant before after fault h = ground arith

rotate-Represents :
    (env : Env) (show : ℕ → String) (tenant : String) (before after : Hub)
    (result : Result Fault Rotation) (ledger : Ledger)
    → rotate_tenant_key env show tenant before ≡ (after, result)
    → Represents before ledger
    → Represents after (tally result tenant ledger)
rotate-Represents env show tenant before after (err fault) ledger h r other =
    rw (← rotate_failed env show tenant before after fault h) (r other)
rotate-Represents env show tenant before after (ok done) ledger h r other =
    let rotated = rotate-Rotated env show tenant before after done h in
    elim (Bool-cases (other == tenant)) [
      | inl mine ↦
          let same = (eq_iff other tenant).0 mine in
          rw mine (
            subst (λ t. History (suc (ledger t)) (keys_of t after.tenant_crypto_configs)) (sym same)
              (same_tenant env show tenant before after done (ledger tenant) rotated (r tenant)))
      | inr apart ↦
          rw (apart, other_tenant env show tenant other before after done rotated apart) (r other)
    ]

-- a call of rotateTenantKey with what it reads from outside
abbrev pub Call : Type 0
Call = Env × String

unfoldable pub rotate_each : (ℕ → String) → List Call → Hub → Hub
rotate_each show [] hub = hub
rotate_each show ((env, tenant) ∷ calls) hub =
    rotate_each show calls (rotate_tenant_key env show tenant hub).0

-- the promise of a sequence of calls
unfoldable pub tally_each : (ℕ → String) → List Call → Hub → Ledger → Ledger
tally_each show [] hub ledger = ledger
tally_each show ((env, tenant) ∷ calls) hub ledger =
    let (after, result) = rotate_tenant_key env show tenant hub in
    tally_each show calls after (tally result tenant ledger)

-- Whatever rotations of whatever tenants follow one another, and whatever fails in them, the table of
-- keys implements a counter for each tenant: a rotation that succeeds counts one for its tenant, and
-- any other changes nothing. With n rotations a tenant has exactly the versions n to 1; n alone can
-- sign, and every older one has no private key and a time to be purged. This holds where it held
-- before.
pub rotations_refine :
    (show : ℕ → String) (calls : List Call) (hub : Hub) (ledger : Ledger)
    → Represents hub ledger
    → Represents (rotate_each show calls hub) (tally_each show calls hub ledger)
unfolding rotate_each tally_each
rotations_refine show [] hub ledger r = r
rotations_refine show ((env, tenant) ∷ calls) hub ledger r =
    let (after, result) = rotate_tenant_key env show tenant hub in
    rotations_refine show calls (rotate_tenant_key env show tenant hub).0
      (tally (rotate_tenant_key env show tenant hub).1 tenant ledger)
      (rotate-Represents env show tenant hub (rotate_tenant_key env show tenant hub).0
        (rotate_tenant_key env show tenant hub).1 ledger refl r)

find_shard-set :
    (tenant status : String) (shards : List Shard) (shard : Shard)
    → find_shard tenant shards ≡ some shard
    → find_shard tenant (set_shard tenant status shards) ≡ some (record shard { status = status })
unfolding find_shard set_shard
find_shard-set tenant status [] shard at = cc
find_shard-set tenant status (s ∷ rest) shard at =
    ground (arith, find_shard-set tenant status rest shard, eq_iff s.tenant_id tenant)

-- A rotation does not give a shard back its status: whatever status the shard had, after a rotation
-- that succeeds it is ACTIVE, also where the tenant was suspended.
rotate_activates :
    (env : Env) (show : ℕ → String) (tenant : String) (before after : Hub) (done : Rotation)
    (shard : Shard)
    → rotate_tenant_key env show tenant before ≡ (after, ok done)
    → find_shard tenant before.shard_map ≡ some shard
    → find_shard tenant after.shard_map ≡ some (record shard { status = "ACTIVE" })
rotate_activates env show tenant before after done shard h at =
    let r = rotate-Rotated env show tenant before after done h in
    rw r.shards (
      find_shard-set tenant "ACTIVE" (set_shard tenant "ROTATING" before.shard_map)
        (record shard { status = "ROTATING" })
        (find_shard-set tenant "ROTATING" before.shard_map shard at))
