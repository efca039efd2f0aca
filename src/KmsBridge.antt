-- ===== src/KmsBridge.antt =====
-- functions/kms-bridge.js: the keys in Secret Manager, and the removal of those that no row of
-- tenant_crypto_configs refers to.
pub mod Ghosts
use sentinel_engine_sovereig.Base.{
  ℕ, zero, suc, ◌+◌, String, Bool, true, false, not, Option, none, some, List, [], ◌∷◌, ◌++◌, map,
  Result, ok, err, ◌>>=◌, length, filter, includes, ◌==◌, ◌⧺◌, if◌then◌else◌,
}
use sentinel_engine_sovereig.KeyRotation.{KeyRow}

pub data Fault : Type 0 where
  -- the error of a call of Secret Manager, with its code
  rejected : ℕ → Fault
  -- the error of the SELECT
  database : Fault

-- Secret Manager: the reply of each call, by the name that it is asked for
pub record SecretManager : Type 0 where
  pub get_secret : String → Result Fault (Unit {0})
  pub create_secret : String → Result Fault (Unit {0})
  -- the name of the new version
  pub add_secret_version : String → String → Result Fault String
  pub list_secrets : Result Fault (List String)
  pub list_secret_versions : String → Result Fault (List String)
  pub destroy_secret_version : String → Result Fault (Unit {0})

-- NOT_FOUND, 5
abbrev is_not_found : Fault → Bool
is_not_found (rejected (suc (suc (suc (suc (suc zero)))))) = true
is_not_found fault = false

unfoldable pub secret_path : String → String → String
secret_path project id = "projects/" ⧺ project ⧺ "/secrets/" ⧺ id

create_missing : SecretManager → String → Result Fault (Unit {0}) → Result Fault (Unit {0})
create_missing client id (ok found) = ok tt
create_missing client id (err fault) =
    if is_not_found fault then client.create_secret id else err fault

unfoldable pub ensure_secret_exists : SecretManager → String → String → Result Fault (Unit {0})
unfolding create_missing secret_path
ensure_secret_exists client project id =
    create_missing client id (client.get_secret (secret_path project id))

unfoldable pub store_key : SecretManager → String → String → String → Result Fault String
unfolding ensure_secret_exists secret_path
store_key client project tenant pem = do
  let id = "sentinel-pq-" ⧺ tenant
  exists ← ensure_secret_exists client project id
  client.add_secret_version (secret_path project id) pem

-- what destroyVersion asks for; the error of the call is only printed
unfoldable pub destroy_version : String → List String
destroy_version path = if path == "" then [] else path ∷ []

-- The rows that the SELECT returns: every status that a key has here is one of the three.
unfoldable pub referenced_paths : List KeyRow → List String
referenced_paths [] = []
referenced_paths (row ∷ rows) = elim row.private_key_ref [
  | none ↦ referenced_paths rows
  | some path ↦ path ∷ referenced_paths rows
]

-- the counters of the audit, and the versions that Secret Manager is asked to destroy
pub record Audit : Type 0 where
  pub audited : ℕ
  pub destroyed : ℕ
  pub asked : List String

-- the loop over the versions of a secret
unfoldable pub audit_versions : List String → List String → Audit → Audit
unfolding destroy_version
audit_versions refs [] a = a
audit_versions refs (name ∷ names) a = audit_versions refs names (
    if not (includes refs name)
    then record {
      audited = a.audited + 1;
      destroyed = a.destroyed + 1;
      asked = a.asked ++ destroy_version name;
    }
    else record a { audited = a.audited + 1 })

unfoldable pub audit_secrets :
    SecretManager → List String → List String → Audit → Result Fault Audit
audit_secrets client refs [] a = ok a
audit_secrets client refs (secret ∷ secrets) a = client.list_secret_versions secret >>= λ names.
    audit_secrets client refs secrets (audit_versions refs names a)

unfoldable pub cleanup_ghost_keys : SecretManager → Result Fault (List KeyRow) → Result Fault Audit
unfolding audit_secrets
cleanup_ghost_keys client selected = do
  rows ← selected
  secrets ← client.list_secrets
  audit_secrets client (referenced_paths rows) secrets
      (record { audited = 0; destroyed = 0; asked = [] })
