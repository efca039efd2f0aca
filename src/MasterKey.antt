-- ===== src/MasterKey.antt =====
-- functions/security-utils.js: the encryption of connection strings under the master key. The cipher
-- and the hex conversions of the runtime are parameters; a text is the sequence of its characters.
pub mod Formats
use sentinel_engine_sovereig.Base.{
  ℕ, Bool, true, false, Option, none, some, List, [], ◌∷◌, ◌++◌, Result, ok, err, ◌>>=◌, length,
  eqb, not, if◌then◌else◌,
}
use sentinel_engine_sovereig.SecurityManager.Sealing.{Text, Bytes, Cipher}

pub data Fault : Type 0 where
  -- errors that begin with CRYPTO_FAULT, and those that begin with DECRYPT_FAILED
  crypto_fault decrypt_failed : Fault

-- process.env
pub record Environment : Type 0 where
  pub sentinel_dsn_master_key : Option Text
  pub sentinel_encryption_key : Option Text

-- the cipher under a key, and Buffer between hex and bytes
pub record Runtime : Type 0 where
  pub cipher_of : Bytes → Cipher
  pub of_hex : Text → Bytes
  pub to_hex : Bytes → Text
  pub of_utf8 : Text → Bytes
  pub to_utf8 : Bytes → Text

abbrev set_or : Option Text → Option Text → Text
set_or (some (c ∷ text)) other = c ∷ text
set_or given none = []
set_or given (some other) = other

unfoldable pub key_hex : Environment → Text
key_hex env = set_or env.sentinel_dsn_master_key env.sentinel_encryption_key

read_key : Runtime → Text → Result Fault Bytes
read_key runtime [] = err crypto_fault
read_key runtime (c ∷ hex) =
    if eqb (length (runtime.of_hex (c ∷ hex))) 32
    then ok (runtime.of_hex (c ∷ hex))
    else err crypto_fault

-- _getMasterKey, from _masterKey: a key that was read once is kept
unfoldable pub get_master_key : Runtime → Environment → Option Bytes → Result Fault Bytes
unfolding read_key key_hex
get_master_key runtime env none = read_key runtime (key_hex env)
get_master_key runtime env (some key) = ok key

-- the first part of a split, with a character before it
abbrev onto_first : ℕ → List Text → List Text
onto_first c [] = (c ∷ []) ∷ []
onto_first c (part ∷ parts) = (c ∷ part) ∷ parts

-- text.split(':')
unfoldable pub split : Text → List Text
split [] = [] ∷ []
split (c ∷ text) = if eqb c b':' then [] ∷ split text else onto_first c (split text)

-- what final() refuses becomes a DECRYPT_FAILED
opened : {E : Type 0} → Runtime → Result E Bytes → Result Fault Text
opened runtime (ok plaintext) = ok (runtime.to_utf8 plaintext)
opened runtime (err fault) = err decrypt_failed

unseal_parts : Runtime → Environment → Option Bytes → Text → Text → Text → Result Fault Text
unfolding opened
unseal_parts runtime env cached iv_hex tag_hex text_hex = do
  key ← get_master_key runtime env cached
  if not (eqb (length (runtime.of_hex iv_hex)) 12)
      then err decrypt_failed
      else if not (eqb (length (runtime.of_hex tag_hex)) 16)
      then err decrypt_failed
      else opened runtime (
          (runtime.cipher_of key).unseal (runtime.of_hex iv_hex) (runtime.of_hex tag_hex)
            (runtime.of_hex text_hex))

-- what three parts and no others are for
decrypt_parts : Runtime → Environment → Option Bytes → List Text → Result Fault Text
unfolding unseal_parts
decrypt_parts runtime env cached (iv_hex ∷ tag_hex ∷ text_hex ∷ []) =
    unseal_parts runtime env cached iv_hex tag_hex text_hex
decrypt_parts runtime env cached parts = err decrypt_failed

-- an empty text is refused, and so is its only part
unfoldable pub decrypt_with_master_key :
    Runtime → Environment → Option Bytes → Text → Result Fault Text
unfolding decrypt_parts
decrypt_with_master_key runtime env cached [] = err decrypt_failed
decrypt_with_master_key runtime env cached (c ∷ text) =
    decrypt_parts runtime env cached (split (c ∷ text))

-- encryptWithMasterKey, with the vector that randomBytes drew
unfoldable pub encrypt_with_master_key :
    Runtime → Environment → Option Bytes → Bytes → Text → Result Fault Text
encrypt_with_master_key runtime env cached iv plaintext =
    get_master_key runtime env cached >>= λ key.
    let (encrypted, tag) = (runtime.cipher_of key).seal iv (runtime.of_utf8 plaintext) in
    ok (runtime.to_hex iv ++ b':' ∷ (runtime.to_hex tag ++ b':' ∷ runtime.to_hex encrypted))
