-- ===== src/KeyRotation/Paths.antt =====
-- functions/dilithium-rotation.js: the paths of private keys that rotations store.
use sentinel_engine_sovereig.Base.{
  ℕ, String, none, some, List, [], ◌∷◌, ok, err, Option, All, Result, ◌==◌, ◌≡◌, refl, ◌⊎◌, inl,
  inr, Bool-cases, ◌&&◌,
}
use sentinel_engine_sovereig.KeyRotation.{
  Fault, Rotation, KeyRow, Hub, Env, private_path, key_id, promoted, retire, deprecate_keys,
  current_key, is_active, rotate_tenant_key,
}
use sentinel_engine_sovereig.KeyRotation.Outcomes.{rotate-Rotated, after_update}
use sentinel_engine_sovereig.KeyRotation.Refines.{rotate_each, Call, rotate_failed}

-- a key with no private part, or with one under a path of the engine's own
abbrev pub HasOwnPath : KeyRow → Type 0
HasOwnPath row =
    (row.private_key_ref ≡ none) ⊎ ((id : String) × (row.private_key_ref ≡ some (private_path id)))

deprecate_keys-HasOwnPath :
    (tenant : String) (now : ℕ) (rows : List KeyRow)
    → All HasOwnPath rows
    → All HasOwnPath (deprecate_keys tenant now rows)
unfolding deprecate_keys retire
deprecate_keys-HasOwnPath tenant now [] h = tt
deprecate_keys-HasOwnPath tenant now (row ∷ rows) (own, rest) = (
  elim (Bool-cases ((row.tenant_id == tenant) && is_active row)) [
    | inl swept ↦ rw swept (inl refl)
    | inr kept ↦ rw kept own
  ],
  deprecate_keys-HasOwnPath tenant now rows rest,
)

after_update-HasOwnPath :
    (current : Option KeyRow) (tenant : String) (now : ℕ) (rows : List KeyRow)
    → All HasOwnPath rows
    → All HasOwnPath (after_update current tenant now rows)
after_update-HasOwnPath none tenant now rows h = h
after_update-HasOwnPath (some key) tenant now rows h = deprecate_keys-HasOwnPath tenant now rows h

rotate-HasOwnPath :
    (env : Env) (show : ℕ → String) (tenant : String) (before after : Hub)
    (result : Result Fault Rotation)
    → rotate_tenant_key env show tenant before ≡ (after, result)
    → All HasOwnPath before.tenant_crypto_configs
    → All HasOwnPath after.tenant_crypto_configs
unfolding promoted
rotate-HasOwnPath env show tenant before after (err fault) h own =
    rw (← rotate_failed env show tenant before after fault h) own
rotate-HasOwnPath env show tenant before after (ok done) h own =
    let r = rotate-Rotated env show tenant before after done h in
    rw r.keys (
      inr (key_id tenant done.version show, refl),
      after_update-HasOwnPath (current_key tenant before.tenant_crypto_configs) tenant env.now
          before.tenant_crypto_configs own,
    )

pub rotate_each-HasOwnPath :
    (show : ℕ → String) (calls : List Call) (hub : Hub)
    → All HasOwnPath hub.tenant_crypto_configs
    → All HasOwnPath (rotate_each show calls hub).tenant_crypto_configs
unfolding rotate_each
rotate_each-HasOwnPath show [] hub own = own
rotate_each-HasOwnPath show ((env, tenant) ∷ calls) hub own =
    rotate_each-HasOwnPath show calls (rotate_tenant_key env show tenant hub).0 (
      rotate-HasOwnPath env show tenant hub (rotate_tenant_key env show tenant hub).0
        (rotate_tenant_key env show tenant hub).1 refl own)
