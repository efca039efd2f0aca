-- ===== src/MasterKey/Formats.antt =====
-- functions/security-utils.js with functions/security-manager.js: which texts the master key opens.
use sentinel_engine_sovereig.Base.{
  false, Option, List, [], ◌∷◌, ◌++◌, All, ok, err, length, eqb, ◌≡◌, refl, ap, ◌∙◌, arith,
}
use sentinel_engine_sovereig.SecurityManager.Sealing.{Text, Bytes, Cipher, Codec, encrypt_field}
use sentinel_engine_sovereig.SecurityManager.Sealing.Laws.{IsCipher}
use sentinel_engine_sovereig.MasterKey.{
  decrypt_failed, Environment, Runtime, get_master_key, split, opened, unseal_parts, decrypt_parts,
  decrypt_with_master_key, encrypt_with_master_key,
}

-- a text with no colon, as hex and base64 are
abbrev pub NoColon : Text → Type 0
NoColon text = All (λ c. eqb c b':' ≡ false) text

-- Buffer between hex and bytes: hex has no colon, and is read as it was written
pub record IsHex (runtime : Runtime) : Type 0 where
  pub hex_colons : (bytes : Bytes) → NoColon (runtime.to_hex bytes)
  pub hex : (bytes : Bytes) → runtime.of_hex (runtime.to_hex bytes) ≡ bytes

split-NoColon : (text : Text) → NoColon text → split text ≡ text ∷ []
unfolding split
split-NoColon [] none_at_all = refl
split-NoColon (c ∷ text) (apart, later) = rw (apart, split) (rw (split-NoColon text later) refl)

split-append : (text rest : Text) → NoColon text → split (text ++ b':' ∷ rest) ≡ text ∷ split rest
unfolding split
split-append [] rest none_at_all = refl
split-append (c ∷ text) rest (apart, later) =
    rw (apart, split) (rw (split-append text rest later) refl)

one_part_refused :
    (runtime : Runtime) (env : Environment) (cached : Option Bytes) (text : Text)
    → NoColon text
    → decrypt_with_master_key runtime env cached text ≡ err decrypt_failed
unfolding decrypt_with_master_key decrypt_parts
one_part_refused runtime env cached [] none_at_all = refl
one_part_refused runtime env cached (c ∷ text) plain = rw (split-NoColon (c ∷ text) plain) refl

-- What encryptField wrote, the master key never opens: its base64 holds no colon, so it is refused for
-- its format, whatever the keys, the vector and the field are.
pub decrypt_with_master_key-encrypt_field :
    (runtime : Runtime) (env : Environment) (cached : Option Bytes) (cipher : Cipher)
    (codec : Codec) (iv : Bytes) (field : Text)
    → ((bytes : Bytes) → NoColon (codec.to_base64 bytes))
    → decrypt_with_master_key runtime env cached (encrypt_field cipher codec iv field)
      ≡ err decrypt_failed
unfolding encrypt_field
decrypt_with_master_key-encrypt_field runtime env cached cipher codec iv field base64 =
    one_part_refused runtime env cached (codec.to_base64 _) (base64 _)

three_parts :
    (a b c : Text)
    → NoColon a
    → NoColon b
    → NoColon c
    → split (a ++ b':' ∷ (b ++ b':' ∷ c)) ≡ a ∷ b ∷ c ∷ []
three_parts a b c na nb nc =
    split-append a (b ++ b':' ∷ c) na
    ∙ ap (λ (l : List Text). a ∷ l)
        (split-append b c nb ∙ ap (λ (l : List Text). b ∷ l) (split-NoColon c nc))

nonempty_parts :
    (runtime : Runtime) (env : Environment) (cached : Option Bytes) (a rest : Text)
    → decrypt_with_master_key runtime env cached (a ++ b':' ∷ rest)
      ≡ decrypt_parts runtime env cached (split (a ++ b':' ∷ rest))
unfolding decrypt_with_master_key
nonempty_parts runtime env cached [] rest = refl
nonempty_parts runtime env cached (c ∷ a) rest = refl

unseal_parts-sealed :
    (runtime : Runtime) (env : Environment) (cached : Option Bytes) (key iv : Bytes)
    (plaintext : Text)
    → IsHex runtime
    → IsCipher (runtime.cipher_of key)
    → runtime.to_utf8 (runtime.of_utf8 plaintext) ≡ plaintext
    → length iv ≡ 12
    → get_master_key runtime env cached ≡ ok key
    → unseal_parts runtime env cached
        (runtime.to_hex iv)
        (runtime.to_hex ((runtime.cipher_of key).seal iv (runtime.of_utf8 plaintext)).1)
        (runtime.to_hex ((runtime.cipher_of key).seal iv (runtime.of_utf8 plaintext)).0)
      ≡ ok plaintext
unfolding unseal_parts opened
unseal_parts-sealed runtime env cached key iv plaintext hex good carried twelve has =
    let body = (runtime.cipher_of key).seal iv (runtime.of_utf8 plaintext) in
    rw
      (
        has,
        unseal_parts,
        hex.hex iv,
        hex.hex body.1,
        hex.hex body.0,
        twelve,
        good.tag_length iv (runtime.of_utf8 plaintext),
        good.opens iv (runtime.of_utf8 plaintext),
        carried,
      )
      refl

-- A connection string that was encrypted under the master key is decrypted to itself under the same
-- key, whatever vector of 12 bytes was drawn.
decrypt-encrypt_with_master_key :
    (runtime : Runtime) (env : Environment) (cached : Option Bytes) (key iv : Bytes)
    (plaintext sealed : Text)
    → IsHex runtime
    → IsCipher (runtime.cipher_of key)
    → runtime.to_utf8 (runtime.of_utf8 plaintext) ≡ plaintext
    → length iv ≡ 12
    → get_master_key runtime env cached ≡ ok key
    → encrypt_with_master_key runtime env cached iv plaintext ≡ ok sealed
    → decrypt_with_master_key runtime env cached sealed ≡ ok plaintext
unfolding encrypt_with_master_key unseal_parts decrypt_parts opened
decrypt-encrypt_with_master_key runtime env cached key iv plaintext sealed hex good carried twelve
      has h =
    let body = (runtime.cipher_of key).seal iv (runtime.of_utf8 plaintext) in
    let written : runtime.to_hex iv
          ++ b':' ∷ (runtime.to_hex body.1 ++ b':' ∷ runtime.to_hex body.0)
        ≡ sealed =
      ground (arith, h, has) in
    rw (← written) (
      nonempty_parts runtime env cached (runtime.to_hex iv) _
      ∙ ap (decrypt_parts runtime env cached)
          (three_parts _ _ _ (hex.hex_colons iv) (hex.hex_colons body.1) (hex.hex_colons body.0))
      ∙ unseal_parts-sealed runtime env cached key iv plaintext hex good carried twelve has)
