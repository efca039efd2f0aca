-- ===== src/KeyRotation/Outcomes.antt =====
-- functions/dilithium-rotation.js: what the tables are after a rotation that succeeds.
use sentinel_engine_sovereig.Base.{
  ℕ, String, Option, none, some, List, ◌∷◌, Result, ok, err, ◌≡◌, refl, arith,
}
use sentinel_engine_sovereig.KeyRotation.{
  Fault, KeyRow, Hub, Env, Rotation, current_key, next_version, deprecate_keys, promoted, run,
  generate_pair, deprecate_current, swap_keys, rotate_within, rotate_tenant_key, caught, commit,
  check_shard, find_shard, set_shard,
}

-- the keys that the UPDATE leaves
abbrev pub after_update : Option KeyRow → String → ℕ → List KeyRow → List KeyRow
after_update none tenant now rows = rows
after_update (some current) tenant now rows = deprecate_keys tenant now rows

-- A rotation of the tenant that succeeded, with the public key that was generated.
pub record Rotated (env : Env) (show : ℕ → String) (tenant : String) (before after : Hub)
    (done : Rotation) : Type 0 where
  pub public : String
  pub generated : generate_pair env ≡ ok public
  pub version : done.version ≡ next_version (current_key tenant before.tenant_crypto_configs)
  pub keys :
      after.tenant_crypto_configs
      ≡ promoted env show tenant done.version public
        ∷ after_update
            (current_key tenant before.tenant_crypto_configs)
            tenant
            env.now
            before.tenant_crypto_configs
  pub shards :
      after.shard_map ≡ set_shard tenant "ACTIVE" (set_shard tenant "ROTATING" before.shard_map)

swap_keys_fields :
    (env : Env) (show : ℕ → String) (tenant : String) (current : Option KeyRow)
    (generated : Result Fault String) (marked after : Hub) (done : Rotation)
    → generate_pair env ≡ generated
    → swap_keys env show tenant current marked ≡ ok (after, done)
    → (public : String) × (generate_pair env ≡ ok public)
      × (done.version ≡ next_version current)
      × (after.tenant_crypto_configs
          ≡ promoted env show tenant done.version public
            ∷ after_update current tenant env.now marked.tenant_crypto_configs)
      × (after.shard_map ≡ set_shard tenant "ACTIVE" marked.shard_map)
unfolding swap_keys deprecate_current run
swap_keys_fields env show tenant current (err fault) marked after done made h =
    absurd (ground (arith, made, h))
swap_keys_fields env show tenant none (ok public) marked after done made h =
    (public, made, ground arith, ground arith, ground arith)
swap_keys_fields env show tenant (some current) (ok public) marked after done made h =
    (public, made, ground arith, ground arith, ground arith)

-- What runs in the transaction, where it succeeds.
rotate_within-eq-ok :
    (env : Env) (show : ℕ → String) (tenant : String) (before after : Hub) (done : Rotation)
    → rotate_within env show tenant before ≡ ok (after, done)
    → (check_shard (find_shard tenant before.shard_map) ≡ ok tt)
      × (swap_keys env show tenant
            (current_key tenant before.tenant_crypto_configs)
            (record before { shard_map = set_shard tenant "ROTATING" before.shard_map })
          ≡ ok (after, done))
unfolding rotate_within run caught
rotate_within-eq-ok env show tenant before after done h = (ground arith, ground arith)

-- The tables after a rotation that succeeds, of a shard that was not locked.
pub rotate-Rotated :
    (env : Env) (show : ℕ → String) (tenant : String) (before after : Hub) (done : Rotation)
    → rotate_tenant_key env show tenant before ≡ (after, ok done)
    → Rotated env show tenant before after done
unfolding rotate_tenant_key commit
rotate-Rotated env show tenant before after done h =
    let within : rotate_within env show tenant before ≡ ok (after, done) = ground arith in
    let (free, swapped) = rotate_within-eq-ok env show tenant before after done within in
    let (public, generated, version, keys, shards) =
      swap_keys_fields env show tenant (current_key tenant before.tenant_crypto_configs) _ _ after
        done refl swapped in
    record {
      public = public;
      generated = generated;
      version = version;
      keys = keys;
      shards = shards;
    }
