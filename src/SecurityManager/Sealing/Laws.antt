-- ===== src/SecurityManager/Sealing/Laws.antt =====
-- functions/security-manager.js: a field that is sealed is read again.
use mathlib.Core.List.{append_assoc}
use sentinel_engine_sovereig.Base.{
  ℕ, false, List, [], ◌∷◌, ◌++◌, ok, length, length-append, ltb, ◌≡◌, refl, ap, sym, ◌∙◌, arith,
}
use sentinel_engine_sovereig.SecurityManager.Sealing.{
  Text, Bytes, Cipher, Codec, take, drop, encrypt, decrypt, encrypt_field, decrypt_field,
}

module _ {ℓ} {A : Type ℓ} where
  take-append : (front back : List A) → take (length front) (front ++ back) ≡ front
  take-append [] back = refl
  take-append (x ∷ front) back = ap (λ (l : List A). x ∷ l) (take-append front back)

  drop-append : (front back : List A) → drop (length front) (front ++ back) ≡ back
  drop-append [] back = refl
  drop-append (x ∷ front) back = drop-append front back

  take-at : (n : ℕ) (front back : List A) → length front ≡ n → take n (front ++ back) ≡ front
  take-at n front back e = rw (← e) (take-append front back)

  drop-at : (n : ℕ) (front back : List A) → length front ≡ n → drop n (front ++ back) ≡ back
  drop-at n front back e = rw (← e) (drop-append front back)

-- What the runtime documents of AES-GCM: the tag has 16 bytes, and what was sealed is unsealed with
-- the same vector and its tag.
pub record IsCipher (cipher : Cipher) : Type 0 where
  pub tag_length : (iv plaintext : Bytes) → length (cipher.seal iv plaintext).1 ≡ 16
  pub opens :
      (iv plaintext : Bytes)
      → cipher.unseal iv (cipher.seal iv plaintext).1 (cipher.seal iv plaintext).0 ≡ ok plaintext

-- and of base64
pub record IsCodec (codec : Codec) : Type 0 where
  pub base64 : (bytes : Bytes) → codec.of_base64 (codec.to_base64 bytes) ≡ bytes

decrypt-parts :
    (cipher : Cipher) (iv tag encrypted : Bytes)
    → length iv ≡ 12
    → length tag ≡ 16
    → decrypt cipher (iv ++ (tag ++ encrypted)) ≡ cipher.unseal iv tag encrypted
unfolding decrypt
decrypt-parts cipher iv tag encrypted twelve sixteen =
    let parts = tag ++ encrypted in
    let long : ltb (length (iv ++ parts)) 28 ≡ false =
      ground (arith, length-append iv parts, length-append tag encrypted, twelve, sixteen) in
    let tail : drop 28 (iv ++ parts) ≡ encrypted =
      ap (drop 28) (sym (append_assoc iv tag encrypted))
      ∙ drop-at 28 (iv ++ tag) encrypted (omega (arith, length-append iv tag, twelve, sixteen)) in
    rw
      (
        long,
        take-at 12 iv parts twelve,
        drop-at 12 iv parts twelve,
        take-at 16 tag encrypted sixteen,
        tail,
      )
      refl

-- A field that UTF-8 can carry, which one with half of a surrogate pair is not, is decrypted to itself
-- after it was encrypted, under the same key, whatever vector of 12 bytes was drawn, with every
-- provider: the vector and the tag are cut off where they were put.
pub decrypt_field-encrypt_field :
    (cipher : Cipher) (codec : Codec) (iv : Bytes) (field : Text)
    → IsCipher cipher
    → IsCodec codec
    → codec.to_utf8 (codec.of_utf8 field) ≡ field
    → length iv ≡ 12
    → decrypt_field cipher codec (encrypt_field cipher codec iv field) ≡ ok field
unfolding decrypt_field encrypt_field encrypt
decrypt_field-encrypt_field cipher codec iv field good faithful carried twelve =
    let plaintext = codec.of_utf8 field in
    let sealed = cipher.seal iv plaintext in
    rw
      (
        faithful.base64 (iv ++ (sealed.1 ++ sealed.0)),
        decrypt-parts cipher iv sealed.1 sealed.0 twelve (good.tag_length iv plaintext),
        good.opens iv plaintext,
        carried,
      )
      refl
