-- ===== src/SecurityManager/Creation.antt =====
-- functions/security-manager.js: the provider that is created at boot, from the options and the
-- environment.
pub mod Boot
use sentinel_engine_sovereig.Base.{
  ℕ, suc, String, Bool, true, false, Option, none, some, List, [], ◌∷◌, ◌++◌, Result, ok, err,
  ◌>>=◌, length, any, ltb, eqb, ◌==◌, ◌⧺◌, ◌||◌, not, truthy, or_text, if◌then◌else◌,
}
use sentinel_engine_sovereig.SecurityManager.Providers.{
  Fault, Bytes, Envelope, Runtime, ArchivedKey, SoftwareKms, AsymmetricKms, PostQuantum, Provider,
  text_length, KeyPair, new_software, new_asymmetric, new_post_quantum, accepts, verify_asymmetric,
  sign, verify, rotate_asymmetric, rotate_keys, short_encryption_key, short_signing_key,
  missing_pem, encryption_key_not_set, signing_key_not_set, key_pair_not_set,
  hardware_not_available, unknown_provider, rotation_unsupported, only_ec_rotates,
  entropy_exhaustion, crypto, range_error, syntax_error, software, asymmetric, post_quantum,
}

pub record Options : Type 0 where
  pub encryption_key : Option String
  pub signing_key : Option String
  pub private_key_pem : Option String
  pub public_key_pem : Option String
  pub key_id : Option String
  pub algorithm : Option String
  pub seed : Option String

-- the variables of the environment
pub record Environment : Type 0 where
  pub sentinel_encryption_key : Option String
  pub sentinel_signing_key : Option String
  pub sentinel_private_key : Option String
  pub sentinel_public_key : Option String

-- options.x || process.env.X, with "" for what is not set
abbrev pub setting : Option String → Option String → String
setting given environment = if truthy given then or_text given "" else or_text environment ""

unfoldable pub create_software : Options → String → String → Result Fault Provider
create_software options encryption signing =
    if encryption == ""
    then err encryption_key_not_set
    else if signing == ""
    then err signing_key_not_set
    else new_software encryption signing (or_text options.key_id "sentinel-sw-v50") >>= λ kms.
        ok (software kms)

unfoldable pub create_asymmetric :
    Runtime → Options → String → String → String → Result Fault Provider
create_asymmetric runtime options encryption private public =
    if encryption == ""
    then err encryption_key_not_set
    else if (private == "") || (public == "")
    then err key_pair_not_set
    else new_asymmetric runtime (runtime.unescape private) (runtime.unescape public) encryption
        (or_text options.key_id "sentinel-asym-v541") (or_text options.algorithm "ec")
      >>= λ kms. ok (asymmetric kms)

unfoldable pub create_post_quantum : KeyPair → Options → String → Result Fault Provider
create_post_quantum pair options encryption =
    if encryption == ""
    then err encryption_key_not_set
    else new_post_quantum pair encryption (or_text options.key_id "sentinel-pq-v55") options.seed
      >>= λ kms. ok (post_quantum kms)

unfoldable pub create : Runtime → KeyPair → Environment → String → Options → Result Fault Provider
unfolding create_software create_asymmetric create_post_quantum
create runtime pair environment type options =
    let encryption = setting options.encryption_key environment.sentinel_encryption_key in
    if type == "software"
    then create_software options encryption
        (setting options.signing_key environment.sentinel_signing_key)
    else if type == "asymmetric"
    then create_asymmetric runtime options encryption
        (setting options.private_key_pem environment.sentinel_private_key)
        (setting options.public_key_pem environment.sentinel_public_key)
    else if type == "pq_lattice"
    then create_post_quantum pair options encryption
    else if type == "hardware"
    then err hardware_not_available
    else err unknown_provider
