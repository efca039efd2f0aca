-- ===== src/Webauthn.antt =====
-- functions/webauthn-provider.js: the challenges of hardware keys and the keys themselves. The library
-- that makes and checks the ceremonies is a parameter; the ids of keys are held as encoded.
pub mod Assertions
use sentinel_engine_sovereig.Base.{
  ℕ, String, Bool, true, false, Option, none, some, List, [], ◌∷◌, filter, Result, ok, err, ◌>>=◌,
  ◌>>◌, Table, lookup, insert, remove, ◌+◌, ltb, ◌==◌, if◌then◌else◌,
}
use sentinel_engine_sovereig.EvidenceLocker.{DbFault, config_failure}

pub data ChallengeType : Type 0 where
  registration authentication : ChallengeType

pub record Challenge : Type 0 where
  pub challenge : String
  pub kind : ChallengeType
  pub expires_at : ℕ

-- a row of `webauthn_credentials`
pub record Credential : Type 0 where
  pub credential_id : String
  pub authority_id : String
  pub public_key : String
  pub counter : ℕ
  pub transports : List String
  pub aaguid : Option String

-- The database, and _challengeStore.
pub record Provider : Type 0 where
  pub configured : Bool
  pub failing : Option DbFault
  pub credentials : List Credential
  pub challenges : Table Challenge

pub data WebauthnFault : Type 0 where
  webauthn_unavailable no_pending_challenge challenge_expired : WebauthnFault
  credential_not_found no_credentials_registered : WebauthnFault
  webauthn_db : DbFault → WebauthnFault
  library_fault : String → WebauthnFault

-- what the browser sends: the id of the key, and the rest
pub record BrowserResponse : Type 0 where
  pub id : String
  pub body : String
  pub transports : List String

-- what a registration that is verified tells of the key
pub record RegistrationInfo : Type 0 where
  pub id : String
  pub public_key : String
  pub counter : ℕ
  pub aaguid : Option String

-- @simplewebauthn/server: whether a response answers a challenge; for an assertion, the new counter
pub record Library : Type 0 where
  pub verify_registration_response :
      BrowserResponse → String → Result WebauthnFault (Option RegistrationInfo)
  pub verify_authentication_response :
      BrowserResponse → String → Credential → Result WebauthnFault (Option ℕ)

-- getWebAuthn
abbrev pub get_webauthn : Option Library → Result WebauthnFault Library
get_webauthn none = err webauthn_unavailable
get_webauthn (some library) = ok library

unfoldable pub connect : Provider → Result WebauthnFault (Unit {0})
connect s = if s.configured then ok tt else err (webauthn_db config_failure)

abbrev or_nothing : Option DbFault → List Credential → List Credential
or_nothing none found = found
or_nothing (some fault) found = []

-- _getCredentials
unfoldable pub get_credentials : String → Provider → Result WebauthnFault (List Credential)
unfolding connect
get_credentials authority s =
    connect s >> ok (or_nothing s.failing (filter (λ c. c.authority_id == authority) s.credentials))

unfoldable pub find_credential : String → List Credential → Option Credential
find_credential id [] = none
find_credential id (c ∷ cs) = if c.credential_id == id then some c else find_credential id cs

-- _getCredentialById
unfoldable pub get_credential_by_id : String → Provider → Result WebauthnFault (Option Credential)
unfolding connect find_credential
get_credential_by_id id s =
    connect s >> ok (find_credential id (or_nothing s.failing s.credentials))

abbrev pub challenge_ms : ℕ
challenge_ms = 120000

abbrev put_challenge : String → ChallengeType → String → ℕ → Provider → Provider
put_challenge authority kind drawn now s = record s {
  challenges =
      insert authority (record { challenge = drawn; kind = kind; expires_at = now + challenge_ms })
        s.challenges;
}

abbrev pub drop_challenge : String → Provider → Provider
drop_challenge authority s = record s { challenges = remove authority s.challenges }

-- generateRegistrationOptions, with the challenge that the library draws
unfoldable pub generate_registration_options :
    Option Library → String → String → ℕ → Provider → Provider × Result WebauthnFault String
unfolding get_credentials
generate_registration_options library authority drawn now s =
    elim (get_webauthn library >>= λ w. get_credentials authority s) [
      | err fault ↦ (s, err fault)
      | ok existing ↦ (put_challenge authority registration drawn now s, ok drawn)
    ]

abbrev issue :
    String → String → ℕ → Provider → List Credential → Provider × Result WebauthnFault String
issue authority drawn now s [] = (s, err no_credentials_registered)
issue authority drawn now s (c ∷ cs) =
    (put_challenge authority authentication drawn now s, ok drawn)

-- generateAuthenticationOptions
unfoldable pub generate_authentication_options :
    Option Library → String → String → ℕ → Provider → Provider × Result WebauthnFault String
unfolding get_credentials
generate_authentication_options library authority drawn now s =
    elim (get_webauthn library >>= λ w. get_credentials authority s) [
      | err fault ↦ (s, err fault)
      | ok credentials ↦ issue authority drawn now s credentials
    ]

pub data ChallengeCheck : Type 0 where
  missing late : ChallengeCheck
  fresh : String → ChallengeCheck

abbrev same_kind : ChallengeType → ChallengeType → Bool
same_kind registration registration = true
same_kind authentication authentication = true
same_kind registration authentication = false
same_kind authentication registration = false

-- a challenge of this type that is not over
unfoldable pub check_challenge : ChallengeType → ℕ → Option Challenge → ChallengeCheck
check_challenge kind now none = missing
check_challenge kind now (some c) =
    if same_kind c.kind kind
    then (if ltb c.expires_at now then late else fresh c.challenge)
    else missing

-- UPDATE … SET counter
unfoldable pub set_counter : String → ℕ → List Credential → List Credential
set_counter id counter [] = []
set_counter id counter (c ∷ cs) =
    (if c.credential_id == id then record c { counter = counter } else c)
    ∷ set_counter id counter cs

-- after the library verified: the challenge is gone, and a statement that fails gives false
accept : String → BrowserResponse → ℕ → Provider → Provider × Result WebauthnFault Bool
unfolding set_counter
accept authority response counter s = elim s.failing [
  | some fault ↦ (drop_challenge authority s, ok false)
  | none ↦ (
    record (drop_challenge authority s) {
      credentials = set_counter response.id counter s.credentials;
    },
    ok true,
  )
]

unfoldable pub answer_challenge :
    Library
    → String
    → BrowserResponse
    → String
    → Provider
    → Option Credential
    → Provider × Result WebauthnFault Bool
unfolding accept
answer_challenge w authority response challenge s none =
    (drop_challenge authority s, err credential_not_found)
answer_challenge w authority response challenge s (some credential) =
    elim (w.verify_authentication_response response challenge credential) [
      | err fault ↦ (drop_challenge authority s, ok false)
      | ok verified ↦ elim verified [
        | none ↦ (drop_challenge authority s, ok false)
        | some counter ↦ accept authority response counter s
      ]
    ]

-- The second half of the call, from what the first has read of the challenge. The source waits for the
-- database in it, before it deletes the challenge.
unfoldable pub answer_checked :
    Library
    → String
    → BrowserResponse
    → Provider
    → ChallengeCheck
    → Provider × Result WebauthnFault Bool
unfolding answer_challenge
answer_checked w authority response s missing = (s, err no_pending_challenge)
answer_checked w authority response s late = (drop_challenge authority s, err challenge_expired)
answer_checked w authority response s (fresh challenge) =
    elim (get_credential_by_id response.id s) [
      | err fault ↦ (s, err fault)
      | ok found ↦ answer_challenge w authority response challenge s found
    ]

-- verifyAuthentication, as a call that runs to its end with no other in between
unfoldable pub verify_authentication :
    Option Library → ℕ → String → BrowserResponse → Provider → Provider × Result WebauthnFault Bool
unfolding answer_checked
verify_authentication library now authority response s = elim (get_webauthn library) [
  | err fault ↦ (s, err fault)
  | ok w ↦
      answer_checked w authority response s
        (check_challenge authentication now (lookup authority s.challenges))
]

-- ON CONFLICT (credential_id) DO UPDATE SET counter, public_key
unfoldable pub put_credential : Credential → List Credential → List Credential
put_credential new [] = new ∷ []
put_credential new (c ∷ cs) =
    if c.credential_id == new.credential_id
    then record c { counter = new.counter; public_key = new.public_key } ∷ cs
    else c ∷ put_credential new cs

store_credential :
    String
    → BrowserResponse
    → Provider
    → Option RegistrationInfo
    → Provider × Result WebauthnFault (Option String)
unfolding put_credential
store_credential authority response s none = (s, ok none)
store_credential authority response s (some info) =
    let key : Credential = record {
      credential_id = info.id;
      authority_id = authority;
      public_key = info.public_key;
      counter = info.counter;
      transports = response.transports;
      aaguid = info.aaguid;
    } in
    elim (connect s) [
      | err fault ↦ (s, err fault)
      | ok _ ↦ elim s.failing [
        | some fault ↦ (s, err (webauthn_db fault))
        | none ↦ (record s { credentials = put_credential key s.credentials }, ok (some info.id))
      ]
    ]

register_checked :
    Library
    → String
    → BrowserResponse
    → Provider
    → ChallengeCheck
    → Provider × Result WebauthnFault (Option String)
unfolding store_credential
register_checked w authority response s missing = (s, err no_pending_challenge)
register_checked w authority response s late = (drop_challenge authority s, err challenge_expired)
register_checked w authority response s (fresh challenge) =
    elim (w.verify_registration_response response challenge) [
      | err fault ↦ (drop_challenge authority s, err fault)
      | ok info ↦ store_credential authority response (drop_challenge authority s) info
    ]

-- verifyRegistration: the id of the key that was verified, or `none`
unfoldable pub verify_registration :
    Option Library
    → ℕ
    → String
    → BrowserResponse
    → Provider
    → Provider × Result WebauthnFault (Option String)
unfolding register_checked
verify_registration library now authority response s = elim (get_webauthn library) [
  | err fault ↦ (s, err fault)
  | ok w ↦
      register_checked w authority response s
        (check_challenge registration now (lookup authority s.challenges))
]
