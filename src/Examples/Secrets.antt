-- ===== src/Examples/Secrets.antt =====
-- functions/security-manager.js with a cipher that changes nothing, and on short texts.
use sentinel_engine_sovereig.Base.{
  err, String, Bool, false, none, some, List, [], ◌∷◌, ◌++◌, ok, ◌||◌, ◌==◌, ◌≡◌, refl,
}
use sentinel_engine_sovereig.SecurityManager.Sealing.{
  Cipher, Codec, Bytes, encrypt_field, decrypt_field,
}
use sentinel_engine_sovereig.MasterKey as MasterKey
use sentinel_engine_sovereig.MasterKey.{decrypt_failed, decrypt_with_master_key}
use sentinel_engine_sovereig.MasterKey.Formats.{NoColon, decrypt_with_master_key-encrypt_field}
use sentinel_engine_sovereig.SecurityManager.Sealing.Laws.{decrypt_field-encrypt_field}
use sentinel_engine_sovereig.SecurityManager.Providers.{
  Runtime, KeyPair, AsymmetricKms, Provider, asymmetric, software, verify, rotate_keys,
  new_software,
}
use sentinel_engine_sovereig.SecurityManager.Creation.{Options, Environment, create}
use sentinel_engine_sovereig.SecurityManager.Providers.Rotations.{
  rotate_each, newer_accepts, signatures_survive,
}
use sentinel_engine_sovereig.SecurityManager.Pii.{ssn_dashes, ssn_plain, pass, tokenize_text}
use sentinel_engine_sovereig.SecurityManager.Patterns.{Text, codes, match_at, match_shape}
use sentinel_engine_sovereig.SecurityManager.Pii.Passes.{pass-single}
use sentinel_engine_sovereig.SecurityManager.Pii.Leaks.{plain_number_leaks}

abbrev sixteen : Bytes
sixteen = 0 ∷ 0 ∷ 0 ∷ 0 ∷ 0 ∷ 0 ∷ 0 ∷ 0 ∷ 0 ∷ 0 ∷ 0 ∷ 0 ∷ 0 ∷ 0 ∷ 0 ∷ 0 ∷ []

abbrev twelve : Bytes
twelve = 1 ∷ 2 ∷ 3 ∷ 4 ∷ 5 ∷ 6 ∷ 7 ∷ 8 ∷ 9 ∷ 10 ∷ 11 ∷ 12 ∷ []

abbrev plain : Cipher
plain = record { seal = λ iv text. (text, sixteen); unseal = λ iv tag sealed. ok sealed }

abbrev same_codec : Codec
same_codec = record { of_utf8 = λ s. s; to_utf8 = λ s. s; to_base64 = λ s. s; of_base64 = λ s. s }

decrypt_field-encrypt_field_example :
    decrypt_field plain same_codec (encrypt_field plain same_codec twelve (codes "secret"))
    ≡ ok (codes "secret")
decrypt_field-encrypt_field_example =
    decrypt_field-encrypt_field plain same_codec twelve (codes "secret")
      (record { tag_length = λ iv text. refl; opens = λ iv text. refl })
      (record { base64 = λ s. refl }) refl refl

abbrev hex : MasterKey.Runtime
hex = record {
  cipher_of = λ key. plain;
  of_hex = λ s. s;
  to_hex = λ s. s;
  of_utf8 = λ s. s;
  to_utf8 = λ s. s;
}

abbrev shard_environment : MasterKey.Environment
shard_environment = record {
  sentinel_dsn_master_key = some (codes "0123456789abcdef0123456789abcdef");
  sentinel_encryption_key = none;
}

-- a text of as many letters as there are bytes
abbrev letters : Bytes → Text
letters [] = []
letters (b ∷ bytes) = b'A' ∷ letters bytes

letters-NoColon : (bytes : Bytes) → NoColon (letters bytes)
letters-NoColon [] = tt
letters-NoColon (b ∷ bytes) = (refl, letters-NoColon bytes)

abbrev letter_codec : Codec
letter_codec = record same_codec { to_base64 = letters }

decrypt_with_master_key-encrypt_field_example :
    decrypt_with_master_key hex shard_environment none
      (encrypt_field plain letter_codec twelve (codes "dsn"))
    ≡ err decrypt_failed
decrypt_with_master_key-encrypt_field_example =
    decrypt_with_master_key-encrypt_field hex shard_environment none plain letter_codec twelve
      (codes "dsn") letters-NoColon

-- a key signs with its own name
abbrev runtime : Runtime
runtime = record {
  hmac = λ key message. key;
  of_hex = λ s. codes s;
  sign = λ key message. ok key;
  verify = λ key message signature. ok (key == signature);
  create_private_key = λ pem. ok pem;
  create_public_key = λ pem. ok pem;
  write_envelope = λ envelope. envelope.key_id;
  read_envelope = λ s.
      ok (record { block_type = some "PQ_BLOCK"; inner_sig = some s; key_id = s; timestamp = "" });
  unescape = λ s. s;
}

abbrev first_kms : AsymmetricKms
first_kms = record {
  private_key = "one";
  public_key = "one";
  key_id = "k1";
  algorithm = "ec";
  previous_keys = [];
  sig_key = "secret";
}

abbrev rotations : List (KeyPair × String)
rotations = (record { private_key = "two"; public_key = "two" }, "7") ∷ []

abbrev rotated : Provider
rotated = asymmetric (record {
  private_key = "two";
  public_key = "two";
  key_id = "sentinel-asym-rotated-7";
  algorithm = "ec";
  previous_keys = record { public_key = "one"; key_id = "k1" } ∷ [];
  sig_key = "secret";
})

rotated_once : rotate_each rotations (asymmetric first_kms) ≡ ok rotated
unfolding rotate_each rotate_keys
rotated_once = refl

signatures_survive_example :
    (verified : Bool) × (verify runtime (asymmetric first_kms) [] "one" ≡ ok verified)
    × (verify runtime rotated [] "one" ≡ ok (newer_accepts runtime [] "one" rotations || verified))
signatures_survive_example =
    signatures_survive runtime [] "one" rotations first_kms rotated rotated_once

abbrev key_text : String
key_text = "0123456789abcdef0123456789abcdef"

abbrev environment : Environment
environment = record {
  sentinel_encryption_key = some key_text;
  sentinel_signing_key = some "0123456789abcdef";
  sentinel_private_key = none;
  sentinel_public_key = none;
}

abbrev no_options : Options
no_options = record {
  encryption_key = none;
  signing_key = none;
  private_key_pem = none;
  public_key_pem = none;
  key_id = none;
  algorithm = none;
  seed = none;
}

abbrev pair : KeyPair
pair = record { private_key = "p"; public_key = "q" }

abbrev booted : Provider
booted = software (record { sig_key = "0123456789abcdef"; key_id = "sentinel-sw-v50" })

boots : create runtime pair environment "software" no_options ≡ ok booted
unfolding create new_software
boots = refl

abbrev token : Text → Text
token number = codes "[T]"

found :
    match_at ssn_dashes false (b'1' ∷ codes "23-45-6789" ++ codes " ok")
    ≡ some (b'1' ∷ codes "23-45-6789")
unfolding match_at match_shape
found = refl

pass-single_example :
    pass ssn_dashes token (codes "id " ++ (b'1' ∷ codes "23-45-6789" ++ codes " ok"))
    ≡ codes "id " ++ (token (b'1' ∷ codes "23-45-6789") ++ codes " ok")
pass-single_example =
    pass-single ssn_dashes token (codes "id ") b'1' (codes "23-45-6789") (codes " ok") (_, refl)
      (refl, (refl, (refl, tt))) refl (refl, (refl, (refl, tt))) found

plain_number_leaks_example :
    pass ssn_plain token (
      codes "no "
      ++ (b'1' ∷ codes "23456789"
          ++ (b'0' ∷ codes "1" ++ (b',' ∷ codes " id " ++ (b'1' ∷ codes "23456789" ++ codes ".")))))
    ≡ codes "no "
      ++ (codes "[T]"
          ++ (b'0' ∷ codes "1" ++ (b',' ∷ codes " id " ++ (b'1' ∷ codes "23456789" ++ codes "."))))
plain_number_leaks_example =
    plain_number_leaks token (codes "no ") b'1' (codes "23456789") b'0' (codes "1") b','
      (codes " id ") (codes ".") refl
      (refl, (refl, (refl, (refl, (refl, (refl, (refl, (refl, (refl, tt))))))))) (refl, (refl, tt))
      (refl, (refl, (refl, tt))) (refl, (refl, (refl, (refl, (refl, tt))))) (refl, tt)

-- the whole method, with the hash of the value under a key
abbrev digest : Text → Text
digest value = codes "a1b2c3d4e5f60000"

tokenized :
    tokenize_text digest (codes "123-45-6789 Patient_ID:  ab1 \"subject_id\": \"x y\"")
    ≡ codes
        "[HASHED_SSN:a1b2c3d4e5f6] patient_id: [HASHED_ID:a1b2c3d4e5f6] \"subject_id\": \"[HASHED_ID:a1b2c3d4e5f6]\""
unfolding tokenize_text
tokenized = refl
