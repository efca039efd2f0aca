-- ===== src/KeyRotation.antt =====
-- functions/dilithium-rotation.js: the rotation of the signing key of a tenant, in one transaction
-- over the tables shard_map, tenant_crypto_configs and evidence_metadata.
--
-- A table is a list of rows with the newest first, which is no order that a statement depends on. A
-- statement that the server refuses is one that `refuses` names; it aborts the transaction.
pub mod History
pub mod Outcomes
pub mod Paths
pub mod Refines
use sentinel_engine_sovereig.Base.{
  ℕ, suc, ◌+◌, ◌*◌, String, Bool, true, false, not, Option, none, some, List, [], ◌∷◌, map, Result,
  ok, err, ◌>>=◌, filter, ltb, ◌==◌, ◌⧺◌, ◌&&◌, if◌then◌else◌,
}

pub data Fault : Type 0 where
  -- the TypeError of shard.status
  type_error rotation_in_progress entropy_exhaustion key_generation : Fault
  -- a statement is refused, or comes after one that was
  database : Fault

pub data KeyStatus : Type 0 where
  active_signing deprecated_verification : KeyStatus

pub record KeyRow : Type 0 where
  pub tenant_id : String
  pub key_version : ℕ
  pub public_key_ref : String
  pub private_key_ref : Option String
  pub status : KeyStatus
  pub promoted_at : ℕ
  pub deprecated_at : Option ℕ
  pub purge_eligible_at : Option ℕ

pub record Shard : Type 0 where
  pub tenant_id : String
  pub status : String

-- a row of evidence_metadata; its event is always KEY_ROTATION
pub record RotationEvent : Type 0 where
  pub tenant_id : String
  pub old_key_version : Option ℕ
  pub new_key_version : ℕ
  pub new_public_key : String

pub record Hub : Type 0 where
  pub shard_map : List Shard
  pub tenant_crypto_configs : List KeyRow
  pub evidence_metadata : List RotationEvent

pub data Statement : Type 0 where
  lock_shard mark_rotating read_current deprecate promote synchronize unlock_shard : Statement

-- what a rotation reads from outside: the refusals of the server, the clock, the check of the
-- randomness and the generated pair, of which only the public part is used
pub record Env : Type 0 where
  pub refuses : Statement → Bool
  pub now : ℕ
  pub has_secure_entropy : Bool
  pub generate_public : Result Fault String

-- the result of a rotation, whose status is SUCCESS
pub record Rotation : Type 0 where
  pub version : ℕ
  pub key_id : String

-- 30 days in milliseconds
abbrev pub grace_period : ℕ
grace_period = 30 * 86400000

abbrev is_active : KeyRow → Bool
is_active row = elim row.status [ active_signing ↦ true | deprecated_verification ↦ false ]

-- WHERE tenant_id = ${tenant}
unfoldable pub keys_of : String → List KeyRow → List KeyRow
keys_of tenant rows = filter (λ row. row.tenant_id == tenant) rows

newer : KeyRow → Option KeyRow → KeyRow
newer row none = row
newer row (some other) = if ltb row.key_version other.key_version then other else row

-- ORDER BY key_version DESC LIMIT 1
unfoldable pub newest : List KeyRow → Option KeyRow
unfolding newer
newest [] = none
newest (row ∷ rows) = some (newer row (newest rows))

unfoldable pub current_key : String → List KeyRow → Option KeyRow
unfolding keys_of newest
current_key tenant rows = newest (filter is_active (keys_of tenant rows))

unfoldable pub next_version : Option KeyRow → ℕ
next_version none = 1
next_version (some current) = current.key_version + 1

unfoldable pub key_id : String → ℕ → (ℕ → String) → String
key_id tenant version show = "sentinel-pq-" ⧺ tenant ⧺ "-v" ⧺ show version

unfoldable pub private_path : String → String
private_path id = "secrets/" ⧺ id ⧺ "/private"

-- the UPDATE that leaves a key to verify only
unfoldable pub retire : ℕ → KeyRow → KeyRow
retire now row = record row {
  status = deprecated_verification;
  deprecated_at = some now;
  purge_eligible_at = some (now + grace_period);
  private_key_ref = none;
}

unfoldable pub deprecate_keys : String → ℕ → List KeyRow → List KeyRow
unfolding retire
deprecate_keys tenant now rows =
    map (λ row. if (row.tenant_id == tenant) && is_active row then retire now row else row) rows

-- UPDATE shard_map SET status = ${status} WHERE tenant_id = ${tenant}
unfoldable pub set_shard : String → String → List Shard → List Shard
set_shard tenant status shards =
    map (λ s. if s.tenant_id == tenant then record s { status = status } else s) shards

unfoldable pub find_shard : String → List Shard → Option Shard
find_shard tenant [] = none
find_shard tenant (s ∷ rest) = if s.tenant_id == tenant then some s else find_shard tenant rest

-- a statement that changes the tables
run : Env → Statement → Hub → Result Fault Hub
run env statement hub = if env.refuses statement then err database else ok hub

unfoldable pub generate_pair : Env → Result Fault String
generate_pair env = if env.has_secure_entropy then env.generate_public else err entropy_exhaustion

-- the new row of tenant_crypto_configs
unfoldable pub promoted : Env → (ℕ → String) → String → ℕ → String → KeyRow
unfolding private_path key_id
promoted env show tenant version public = record {
  tenant_id = tenant;
  key_version = version;
  public_key_ref = public;
  private_key_ref = some (private_path (key_id tenant version show));
  status = active_signing;
  promoted_at = env.now;
  deprecated_at = none;
  purge_eligible_at = none;
}

version_of : Option KeyRow → Option ℕ
version_of none = none
version_of (some current) = some current.key_version

-- the UPDATE runs only where there is a current key
unfoldable pub deprecate_current : Env → String → Option KeyRow → Hub → Result Fault Hub
unfolding run
deprecate_current env tenant none hub = ok hub
deprecate_current env tenant (some current) hub =
    run env deprecate (record hub {
      tenant_crypto_configs = deprecate_keys tenant env.now hub.tenant_crypto_configs;
    })

-- the statements of the inner `try`, from the key that is current
unfoldable pub swap_keys :
    Env → (ℕ → String) → String → Option KeyRow → Hub → Result Fault (Hub × Rotation)
unfolding run deprecate_current next_version generate_pair version_of
swap_keys env show tenant current hub = do
  public ← generate_pair env
  let version = next_version current
  retired ← deprecate_current env tenant current hub
  inserted ← run env promote (record retired {
    tenant_crypto_configs = promoted env show tenant version public ∷ retired.tenant_crypto_configs;
  })
  told ← run env synchronize (record inserted {
    evidence_metadata =
        record {
          tenant_id = tenant;
          old_key_version = version_of current;
          new_key_version = version;
          new_public_key = public;
        }
        ∷ inserted.evidence_metadata;
  })
  unlocked ←
      run env unlock_shard (record told { shard_map = set_shard tenant "ACTIVE" told.shard_map })
  ok (unlocked, record { version = version; key_id = key_id tenant version show })

-- The handler of the inner `try` writes the shard and throws the same error again. Where the
-- transaction is aborted its statement is refused too, and that error is thrown.
rethrow : Env → Fault → Fault
rethrow env database = database
rethrow env fault = if env.refuses unlock_shard then database else fault

caught : Env → Result Fault (Hub × Rotation) → Result Fault (Hub × Rotation)
unfolding rethrow
caught env (ok done) = ok done
caught env (err fault) = err (rethrow env fault)

check_shard : Option Shard → Result Fault (Unit {0})
check_shard none = err type_error
check_shard (some shard) = if shard.status == "ROTATING" then err rotation_in_progress else ok tt

-- the function that sql.begin runs
unfoldable pub rotate_within : Env → (ℕ → String) → String → Hub → Result Fault (Hub × Rotation)
unfolding run check_shard caught swap_keys current_key
rotate_within env show tenant hub = do
  locked ← run env lock_shard hub
  free ← check_shard (find_shard tenant locked.shard_map)
  marked ←
      run env mark_rotating
        (record locked { shard_map = set_shard tenant "ROTATING" locked.shard_map })
  caught env (
      run env read_current marked >>= λ read.
      swap_keys env show tenant (current_key tenant read.tenant_crypto_configs) read)

-- sql.begin: the tables as they were where the function throws
commit : Hub → Result Fault (Hub × Rotation) → Hub × Result Fault Rotation
commit before (ok (after, done)) = (after, ok done)
commit before (err fault) = (before, err fault)

unfoldable pub rotate_tenant_key : Env → (ℕ → String) → String → Hub → Hub × Result Fault Rotation
unfolding commit rotate_within
rotate_tenant_key env show tenant hub = commit hub (rotate_within env show tenant hub)
