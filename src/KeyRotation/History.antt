-- ===== src/KeyRotation/History.antt =====
-- functions/dilithium-rotation.js: the keys of a tenant as the history of its rotations.
use sentinel_engine_sovereig.Base.{
  ℕ, zero, suc, String, false, none, List, [], ◌∷◌, map, filter, ◌==◌, eq_iff, if◌then◌else◌, ◌≡◌,
  ◌≢◌, refl, arith,
}
use sentinel_engine_sovereig.KeyRotation.{
  active_signing, deprecated_verification, KeyRow, keys_of, newest, current_key, next_version,
  retire, deprecate_keys, is_active,
}

-- Retired keys of the versions n, n - 1, ... 1: each can verify only, has no private key and is to
-- be purged.
abbrev pub Retired : ℕ → List KeyRow → Type 0
Retired zero [] = Unit
Retired zero (row ∷ rows) = ⊥
Retired (suc n) [] = ⊥
Retired (suc n) (row ∷ rows) =
    (row.key_version ≡ suc n)
    × (row.status ≡ deprecated_verification)
    × (row.private_key_ref ≡ none)
    × (row.purge_eligible_at ≢ none)
    × Retired n rows

-- n rotations: the one key that signs has version n, and all others are retired.
abbrev pub History : ℕ → List KeyRow → Type 0
History zero [] = Unit
History zero (row ∷ rows) = ⊥
History (suc n) [] = ⊥
History (suc n) (row ∷ rows) =
    (row.key_version ≡ suc n)
    × (row.status ≡ active_signing)
    × (row.private_key_ref ≢ none)
    × Retired n rows

Retired-none_active : (n : ℕ) (rows : List KeyRow) → Retired n rows → filter is_active rows ≡ []
Retired-none_active zero [] h = refl
Retired-none_active zero (row ∷ rows) h = absurd h
Retired-none_active (suc n) [] h = absurd h
Retired-none_active (suc n) (row ∷ rows) h = ground (arith, Retired-none_active n rows h.4)

-- The next version follows the number of rotations.
pub next_version-History :
    (n : ℕ) (tenant : String) (rows : List KeyRow)
    → History n (keys_of tenant rows)
    → next_version (current_key tenant rows) ≡ suc n
unfolding next_version current_key newest
next_version-History n tenant rows h = at n (keys_of tenant rows) h
  where
    at :
        (n : ℕ) (own : List KeyRow)
        → History n own
        → next_version (newest (filter is_active own)) ≡ suc n
    at zero [] h = refl
    at zero (row ∷ own) h = absurd h
    at (suc n) [] h = absurd h
    at (suc n) (row ∷ own) h = ground (arith, Retired-none_active n own h.3)

-- what the UPDATE does to the keys of the tenant
abbrev pub sweep : ℕ → KeyRow → KeyRow
sweep now row = if is_active row then retire now row else row

Retired-sweep : (now n : ℕ) (rows : List KeyRow) → Retired n rows → Retired n (map (sweep now) rows)
Retired-sweep now zero [] h = tt
Retired-sweep now zero (row ∷ rows) h = h
Retired-sweep now (suc n) [] h = h
Retired-sweep now (suc n) (row ∷ rows) (version, status, private, purge, rest) =
    let idle : sweep now row ≡ row = rw status refl in
    rw idle (version, status, private, purge, Retired-sweep now n rows rest)

pub History-sweep :
    (now n : ℕ) (rows : List KeyRow) → History n rows → Retired n (map (sweep now) rows)
unfolding retire
History-sweep now zero [] h = tt
History-sweep now zero (row ∷ rows) h = h
History-sweep now (suc n) [] h = h
History-sweep now (suc n) (row ∷ rows) (version, status, private, rest) =
    rw status (version, refl, refl, λ e. cc, Retired-sweep now n rows rest)

pub keys_of-deprecate_self :
    (tenant : String) (now : ℕ) (rows : List KeyRow)
    → keys_of tenant (deprecate_keys tenant now rows) ≡ map (sweep now) (keys_of tenant rows)
unfolding keys_of deprecate_keys retire
keys_of-deprecate_self tenant now [] = refl
keys_of-deprecate_self tenant now (row ∷ rows) =
    ground (arith, keys_of-deprecate_self tenant now rows)

pub keys_of-deprecate_ne :
    (tenant other : String) (now : ℕ) (rows : List KeyRow)
    → (other == tenant) ≡ false
    → keys_of other (deprecate_keys tenant now rows) ≡ keys_of other rows
unfolding keys_of deprecate_keys retire
keys_of-deprecate_ne tenant other now [] apart = refl
keys_of-deprecate_ne tenant other now (row ∷ rows) apart = ground (
  arith,
  keys_of-deprecate_ne tenant other now rows apart,
  eq_iff row.tenant_id tenant,
  eq_iff row.tenant_id other,
  eq_iff other tenant,
)
