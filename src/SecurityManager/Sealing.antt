-- ===== src/SecurityManager/Sealing.antt =====
-- functions/security-manager.js: the methods encrypt and decrypt, which three providers share, and
-- encryptField and decryptField. Bytes are numbers. The cipher of the runtime, with the derived key
-- of the provider, and its conversions of texts are parameters.
pub mod Laws
use sentinel_engine_sovereig.Base.{
  ℕ, zero, suc, Bool, true, false, List, [], ◌∷◌, ◌++◌, Result, ok, err, ◌>>=◌, length, ltb,
  if◌then◌else◌,
}

pub data Fault : Type 0 where
  -- the two texts of the error that decrypt throws
  too_short : Fault
  -- final() refuses the tag
  forged : Fault
  -- what the conversion to a text or from one throws
  codec : Fault

abbrev pub Bytes : Type 0
Bytes = List ℕ

-- AES-256-GCM under the key of a provider
pub record Cipher : Type 0 where
  -- the ciphertext and the tag, from the initial vector and the text
  pub seal : Bytes → Bytes → Bytes × Bytes
  -- the text, from the initial vector, the tag and the ciphertext
  pub unseal : Bytes → Bytes → Bytes → Result Fault Bytes

-- a text as the sequence of its characters
abbrev pub Text : Type 0
Text = List ℕ

-- what Buffer does between texts and bytes
pub record Codec : Type 0 where
  pub of_utf8 : Text → Bytes
  pub to_utf8 : Bytes → Text
  pub to_base64 : Bytes → Text
  pub of_base64 : Text → Bytes

module _ {ℓ} {A : Type ℓ} where
  -- the two parts of an array at a place: subarray(0, n) and subarray(n)
  abbrev pub take : ℕ → List A → List A
  take zero xs = []
  take (suc n) [] = []
  take (suc n) (x ∷ xs) = x ∷ take n xs

  abbrev pub drop : ℕ → List A → List A
  drop zero xs = xs
  drop (suc n) [] = []
  drop (suc n) (x ∷ xs) = drop n xs

-- the vector comes from randomBytes(12)
unfoldable pub encrypt : Cipher → Bytes → Bytes → Bytes
encrypt cipher iv plaintext =
    let (encrypted, tag) = cipher.seal iv plaintext in iv ++ (tag ++ encrypted)

unfoldable pub decrypt : Cipher → Bytes → Result Fault Bytes
decrypt cipher packed =
    if ltb (length packed) 28
    then err too_short
    else cipher.unseal (take 12 packed) (take 16 (drop 12 packed)) (drop 28 packed)

unfoldable pub encrypt_field : Cipher → Codec → Bytes → Text → Text
encrypt_field cipher codec_ iv field = codec_.to_base64 (encrypt cipher iv (codec_.of_utf8 field))

unfoldable pub decrypt_field : Cipher → Codec → Text → Result Fault Text
decrypt_field cipher codec_ sealed =
    decrypt cipher (codec_.of_base64 sealed) >>= λ plaintext. ok (codec_.to_utf8 plaintext)
