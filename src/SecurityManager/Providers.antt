-- ===== src/SecurityManager/Providers.antt =====
-- functions/security-manager.js: the providers that sign and verify, and the rotation of their keys.
-- The operations of the runtime on keys are parameters.
pub mod Rotations
use sentinel_engine_sovereig.Base.{
  ℕ, suc, String, Bool, true, false, Option, none, some, List, [], ◌∷◌, ◌++◌, Result, ok, err,
  ◌>>=◌, length, any, ltb, eqb, ◌==◌, ◌⧺◌, ◌||◌, not, truthy, or_text, if◌then◌else◌,
}

pub data Fault : Type 0 where
  -- the errors of the constructors
  short_encryption_key short_signing_key missing_pem : Fault
  -- the errors of SecurityManager.create
  encryption_key_not_set signing_key_not_set key_pair_not_set : Fault
  hardware_not_available unknown_provider : Fault
  -- the errors of the methods
  rotation_unsupported only_ec_rotates entropy_exhaustion : Fault
  -- what the runtime throws: a malformed key, buffers of two lengths, a text that is no JSON
  crypto range_error syntax_error : Fault

abbrev pub Bytes : Type 0
Bytes = List ℕ

-- the text in an envelope of the post-quantum provider; a field that is missing is `none`
pub record Envelope : Type 0 where
  pub block_type : Option String
  pub inner_sig : Option String
  pub key_id : String
  pub timestamp : String

-- what the runtime does with keys, and the text of an envelope, base64 of its JSON
pub record Runtime : Type 0 where
  -- createHmac('sha256', key).update(data).digest('hex')
  pub hmac : String → Bytes → String
  pub of_hex : String → Bytes
  -- crypto.sign and crypto.verify, in base64
  pub sign : String → Bytes → Result Fault String
  pub verify : String → Bytes → String → Result Fault Bool
  pub create_private_key : String → Result Fault String
  pub create_public_key : String → Result Fault String
  pub write_envelope : Envelope → String
  pub read_envelope : String → Result Fault Envelope
  -- replace(/\\n/g, '\n')
  pub unescape : String → String

pub record ArchivedKey : Type 0 where
  pub public_key : String
  pub key_id : String

pub record SoftwareKms : Type 0 where
  pub sig_key : String
  pub key_id : String

pub record AsymmetricKms : Type 0 where
  pub private_key : String
  pub public_key : String
  pub key_id : String
  pub algorithm : String
  pub previous_keys : List ArchivedKey
  pub sig_key : String

pub record PostQuantum : Type 0 where
  pub private_key : String
  pub public_key : String
  pub key_id : String
  pub sig_key : String

pub data Provider : Type 0 where
  software : SoftwareKms → Provider
  asymmetric : AsymmetricKms → Provider
  post_quantum : PostQuantum → Provider

-- s.length
abbrev pub text_length : String → ℕ
text_length String.[] = 0
text_length (String.◌∷◌ c s) = suc (text_length s)

-- a key pair that generateKeyPairSync returns
pub record KeyPair : Type 0 where
  pub private_key : String
  pub public_key : String

unfoldable pub new_software : String → String → String → Result Fault SoftwareKms
new_software encryption_key signing_key key_id =
    if ltb (text_length encryption_key) 32
    then err short_encryption_key
    else if ltb (text_length signing_key) 16
    then err short_signing_key
    else ok (record { sig_key = signing_key; key_id = key_id })

unfoldable pub new_asymmetric :
    Runtime → String → String → String → String → String → Result Fault AsymmetricKms
new_asymmetric runtime private_pem public_pem encryption_key key_id algorithm =
    if (private_pem == "") || (public_pem == "")
    then err missing_pem
    else if ltb (text_length encryption_key) 32
    then err short_encryption_key
    else (do
      private ← runtime.create_private_key private_pem
      public ← runtime.create_public_key public_pem
      ok (record {
        private_key = private;
        public_key = public;
        key_id = key_id;
        algorithm = algorithm;
        previous_keys = [];
        sig_key = encryption_key;
      }))

-- The seed is not used: the pair is the one that the runtime generates.
unfoldable pub new_post_quantum :
    KeyPair → String → String → Option String → Result Fault PostQuantum
new_post_quantum pair encryption_key key_id seed =
    if ltb (text_length encryption_key) 32
    then err short_encryption_key
    else ok (record {
      private_key = pair.private_key;
      public_key = pair.public_key;
      key_id = key_id;
      sig_key = encryption_key;
    })

-- timingSafeEqual throws where the lengths differ
timing_safe_equal : Bytes → Bytes → Result Fault Bool
timing_safe_equal a b = if eqb (length a) (length b) then ok (equal a b) else err range_error
  where
    equal : Bytes → Bytes → Bool
    equal [] [] = true
    equal (x ∷ xs) (y ∷ ys) = if eqb x y then equal xs ys else false
    equal xs ys = false

-- tryVerify: what the runtime throws is false
unfoldable pub accepts : Runtime → Bytes → String → String → Bool
accepts runtime message signature key = elim (runtime.verify key message signature) [
  | ok verdict ↦ verdict
  | err fault ↦ false
]

unfoldable pub verify_asymmetric : Runtime → AsymmetricKms → Bytes → String → Bool
verify_asymmetric runtime kms message signature =
    if accepts runtime message signature kms.public_key
    then true
    else any (λ old. accepts runtime message signature old.public_key) kms.previous_keys

sign_post_quantum : Runtime → Bool → String → PostQuantum → Bytes → Result Fault String
sign_post_quantum runtime has_secure_entropy now kms message =
    if not has_secure_entropy
    then err entropy_exhaustion
    else runtime.sign kms.private_key message >>= λ inner. ok (
        runtime.write_envelope (record {
          block_type = some "PQ_BLOCK";
          inner_sig = some inner;
          key_id = kms.key_id;
          timestamp = now;
        }))

verify_inner : Runtime → PostQuantum → Bytes → Option String → Bool
verify_inner runtime kms message none = false
verify_inner runtime kms message (some inner) = accepts runtime message inner kms.public_key

-- every exception is false
verify_envelope : Runtime → PostQuantum → Bytes → Result Fault Envelope → Bool
unfolding verify_inner
verify_envelope runtime kms message (err fault) = false
verify_envelope runtime kms message (ok envelope) = elim envelope.block_type [
  | none ↦ false
  | some type ↦
      if type == "PQ_BLOCK" then verify_inner runtime kms message envelope.inner_sig else false
]

-- sign and verify of each provider
unfoldable pub sign : Runtime → Bool → String → Provider → Bytes → Result Fault String
unfolding sign_post_quantum
sign runtime entropy now (software kms) message = ok (runtime.hmac kms.sig_key message)
sign runtime entropy now (asymmetric kms) message = runtime.sign kms.private_key message
sign runtime entropy now (post_quantum kms) message =
    sign_post_quantum runtime entropy now kms message

unfoldable pub verify : Runtime → Provider → Bytes → String → Result Fault Bool
unfolding timing_safe_equal verify_envelope verify_asymmetric
verify runtime (software kms) message signature =
    timing_safe_equal (runtime.of_hex (runtime.hmac kms.sig_key message)) (runtime.of_hex signature)
verify runtime (asymmetric kms) message signature =
    ok (verify_asymmetric runtime kms message signature)
verify runtime (post_quantum kms) message signature =
    ok (verify_envelope runtime kms message (runtime.read_envelope signature))

-- rotateKeys of the asymmetric provider, with the new pair and the name of the new key
unfoldable pub rotate_asymmetric : KeyPair → String → AsymmetricKms → Result Fault AsymmetricKms
rotate_asymmetric pair now kms =
    if not (kms.algorithm == "ec")
    then err only_ec_rotates
    else ok (record kms {
      previous_keys =
          kms.previous_keys ++ record { public_key = kms.public_key; key_id = kms.key_id } ∷ [];
      private_key = pair.private_key;
      public_key = pair.public_key;
      key_id = "sentinel-asym-rotated-" ⧺ now;
    })

-- SecurityManager.rotateKeys
unfoldable pub rotate_keys : KeyPair → String → Provider → Result Fault Provider
unfolding rotate_asymmetric
rotate_keys pair now (software kms) = err rotation_unsupported
rotate_keys pair now (asymmetric kms) =
    rotate_asymmetric pair now kms >>= λ rotated. ok (asymmetric rotated)
rotate_keys pair now (post_quantum kms) = err rotation_unsupported
