-- ===== src/SecurityManager/Providers/Rotations.antt =====
-- functions/security-manager.js: signatures after the keys of an asymmetric provider were rotated.
use sentinel_engine_sovereig.Base.{
  String, Bool, true, false, List, [], ◌∷◌, ◌++◌, Result, ok, ◌>>=◌, >>=-eq-ok, any, ◌||◌, ◌⧺◌, ◌≡◌,
  refl, ap, sym, subst, ◌∙◌, arith,
}
use sentinel_engine_sovereig.SecurityManager.Providers.{
  Fault, Bytes, Runtime, ArchivedKey, AsymmetricKms, KeyPair, Provider, asymmetric, accepts,
  verify_asymmetric, verify, rotate_asymmetric, rotate_keys,
}

-- one rotation after the other, each with a new pair and the time in its name
unfoldable pub rotate_each : List (KeyPair × String) → Provider → Result Fault Provider
rotate_each [] kms = ok kms
rotate_each ((pair, now) ∷ rest) kms = rotate_keys pair now kms >>= rotate_each rest

-- whether a key of a list of pairs accepts
abbrev pub newer_accepts : Runtime → Bytes → String → List (KeyPair × String) → Bool
newer_accepts runtime message signature [] = false
newer_accepts runtime message signature ((pair, now) ∷ rest) =
    newer_accepts runtime message signature rest
    || accepts runtime message signature pair.public_key

any-snoc {ℓ} :
    {A : Type ℓ} (test : A → Bool) (xs : List A) (x : A)
    → any test (xs ++ x ∷ []) ≡ any test xs || test x
any-snoc test [] x = ground arith
any-snoc test (y ∷ ys) x = ground (arith, any-snoc test ys x)

verify-rotate :
    (runtime : Runtime) (message : Bytes) (signature : String) (pair : KeyPair) (now : String)
    (kms : AsymmetricKms) (rotated : Provider)
    → rotate_keys pair now (asymmetric kms) ≡ ok rotated
    → (next : AsymmetricKms) × (rotated ≡ asymmetric next)
      × (verify_asymmetric runtime next message signature
          ≡ accepts runtime message signature pair.public_key
            || verify_asymmetric runtime kms message signature)
unfolding rotate_keys rotate_asymmetric verify_asymmetric
verify-rotate runtime message signature pair now kms rotated h = (
  record kms {
    previous_keys =
        kms.previous_keys ++ record { public_key = kms.public_key; key_id = kms.key_id } ∷ [];
    private_key = pair.private_key;
    public_key = pair.public_key;
    key_id = "sentinel-asym-rotated-" ⧺ now;
  },
  ground (arith, h),
  ground (
    arith,
    any-snoc (λ (old : ArchivedKey). accepts runtime message signature old.public_key)
        kms.previous_keys (record { public_key = kms.public_key; key_id = kms.key_id }),
  ),
)

verify-rotate_each :
    (runtime : Runtime) (message : Bytes) (signature : String) (rotations : List (KeyPair × String))
    (kms : AsymmetricKms) (rotated : Provider)
    → rotate_each rotations (asymmetric kms) ≡ ok rotated
    → verify runtime rotated message signature
      ≡ ok (
          newer_accepts runtime message signature rotations
          || verify_asymmetric runtime kms message signature)
unfolding rotate_each verify
verify-rotate_each runtime message signature [] kms rotated h =
    let same : asymmetric kms ≡ rotated = ground (arith, h) in rw (← same) refl
verify-rotate_each runtime message signature ((pair, now) ∷ rest) kms rotated h =
    let (middle, first, later) = >>=-eq-ok (rotate_keys pair now (asymmetric kms)) _ h in
    let (next, named, step) = verify-rotate runtime message signature pair now kms middle first in
    let tail =
      verify-rotate_each runtime message signature rest next rotated
        (subst (λ m. rotate_each rest m ≡ ok rotated) named later) in
    tail
    ∙ ap ok (
        ap (λ (b : Bool). newer_accepts runtime message signature rest || b) step
        ∙ sym (
            or_assoc (newer_accepts runtime message signature rest)
              (accepts runtime message signature pair.public_key)
              (verify_asymmetric runtime kms message signature)))
  where
    or_assoc : (a b c : Bool) → (a || b) || c ≡ a || (b || c)
    or_assoc true b c = refl
    or_assoc false b c = refl

-- Rotating the keys loses no evidence and adds none: after any rotations of an asymmetric provider
-- that succeed, a signature is verified exactly when the key of one of the new pairs accepts it or
-- the provider verified it before. A verification never throws.
pub signatures_survive :
    (runtime : Runtime) (message : Bytes) (signature : String) (rotations : List (KeyPair × String))
    (kms : AsymmetricKms) (rotated : Provider)
    → rotate_each rotations (asymmetric kms) ≡ ok rotated
    → (verified : Bool) × (verify runtime (asymmetric kms) message signature ≡ ok verified)
      × (verify runtime rotated message signature
          ≡ ok (newer_accepts runtime message signature rotations || verified))
unfolding verify
signatures_survive runtime message signature rotations kms rotated h = (
  verify_asymmetric runtime kms message signature,
  refl,
  verify-rotate_each runtime message signature rotations kms rotated h,
)
