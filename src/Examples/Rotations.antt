-- ===== src/Examples/Rotations.antt =====
-- functions/dilithium-rotation.js and functions/kms-bridge.js on a hub with one shard, in which nothing
-- is refused.
use sentinel_engine_sovereig.Base.{
  ℕ, String, true, false, List, [], ◌∷◌, ok, ◌≡◌, refl, subst, All, length, arith,
}
use sentinel_engine_sovereig.KeyRotation.{
  Env, Hub, keys_of, rotate_tenant_key, find_shard, set_shard, promoted, deprecate_keys,
}
use sentinel_engine_sovereig.KeyRotation.Refines.{
  Call, Represents, rotate_each, tally_each, rotations_refine,
}
use sentinel_engine_sovereig.KmsBridge.{
  SecretManager, Audit, cleanup_ghost_keys, audit_versions, referenced_paths,
}
use sentinel_engine_sovereig.KmsBridge.Ghosts.{
  IsVersionName, NamesVersions, versions_of, cleanup_destroys_all,
}

abbrev quiet : Env
quiet = record {
  refuses = λ statement. false;
  now = 5;
  has_secure_entropy = true;
  generate_public = ok "public key";
}

abbrev show : ℕ → String
show version = "n"

abbrev new_hub : Hub
new_hub = record {
  shard_map = record { tenant_id = "acme"; status = "ACTIVE" } ∷ [];
  tenant_crypto_configs = [];
  evidence_metadata = [];
}

abbrev two_calls : List Call
two_calls = (quiet, "acme") ∷ (quiet, "acme") ∷ []

two_keys : tally_each show two_calls new_hub (λ tenant. 0) "acme" ≡ 2
unfolding tally_each rotate_tenant_key find_shard set_shard promoted
two_keys = refl

new_hub-Represents : Represents new_hub (λ tenant. 0)
unfolding keys_of
new_hub-Represents tenant = tt

rotations_refine_example :
    Represents
      (rotate_each show two_calls new_hub)
      (tally_each show two_calls new_hub (λ tenant. 0))
rotations_refine_example = rotations_refine show two_calls new_hub (λ tenant. 0) new_hub-Represents

abbrev version : String
version = "projects/p/secrets/sentinel-pq-acme/versions/1"

abbrev client : SecretManager
client = record {
  get_secret = λ name. ok tt;
  create_secret = λ id. ok tt;
  add_secret_version = λ name pem. ok version;
  list_secrets = ok ("projects/p/secrets/sentinel-pq-acme" ∷ []);
  list_secret_versions = λ secret. ok (version ∷ []);
  destroy_secret_version = λ name. ok tt;
}

client-NamesVersions : NamesVersions client
client-NamesVersions secret names listed =
    let same : version ∷ [] ≡ names = ground (arith, listed) in
    subst (All IsVersionName) same (("p/secrets/sentinel-pq-acme/versions/1", refl), tt)

abbrev audit : Audit
audit = record { audited = 1; destroyed = 1; asked = version ∷ [] }

audit_result :
    cleanup_ghost_keys client (ok (rotate_each show two_calls new_hub).tenant_crypto_configs)
    ≡ ok audit
unfolding cleanup_ghost_keys rotate_each rotate_tenant_key audit_versions referenced_paths
    find_shard set_shard promoted deprecate_keys
audit_result = refl

cleanup_destroys_all_example :
    (audit.asked ≡ versions_of client ("projects/p/secrets/sentinel-pq-acme" ∷ []))
    × (audit.audited ≡ length (versions_of client ("projects/p/secrets/sentinel-pq-acme" ∷ [])))
    × (audit.destroyed ≡ length (versions_of client ("projects/p/secrets/sentinel-pq-acme" ∷ [])))
cleanup_destroys_all_example =
    cleanup_destroys_all client show two_calls new_hub ("projects/p/secrets/sentinel-pq-acme" ∷ [])
      audit refl client-NamesVersions refl audit_result
