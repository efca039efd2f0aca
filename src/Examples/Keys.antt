-- ===== src/Examples/Keys.antt =====
-- functions/webauthn-provider.js: two authorities, each with a key, and a challenge for one of them.
use sentinel_engine_sovereig.Base.{
  ℕ, String, true, none, some, [], ◌∷◌, ok, err, lookup, remove, ◌≡◌, refl, arith,
}
use sentinel_engine_sovereig.Webauthn.{
  authentication, Challenge, Credential, Provider, no_pending_challenge, BrowserResponse, Library,
  connect, find_credential, get_credential_by_id, check_challenge, set_counter,
  verify_authentication, answer_challenge, answer_checked,
}
use sentinel_engine_sovereig.Webauthn.Assertions.Overlap.{overlapping_accepted}
use sentinel_engine_sovereig.Webauthn.Assertions.{
  IsAccepted, verify_authentication-IsAccepted, accepted_once,
}

-- a library that accepts every response and gives the next counter
abbrev library : Library
library = record {
  verify_registration_response = λ response challenge. ok none;
  verify_authentication_response = λ response challenge credential. ok (some 8);
}

abbrev key : String → String → ℕ → Credential
key id authority counter = record {
  credential_id = id;
  authority_id = authority;
  public_key = "public";
  counter = counter;
  transports = [];
  aaguid = none;
}

abbrev challenge : Challenge
challenge = record { challenge = "nonce"; kind = authentication; expires_at = 120000 }

abbrev provider : Provider
provider = record {
  configured = true;
  failing = none;
  credentials = key "k-ann" "ann" 3 ∷ key "k-bob" "bob" 7 ∷ [];
  challenges = ("ann", challenge) ∷ [];
}

-- bob's key answers the challenge of ann
abbrev response : BrowserResponse
response = record { id = "k-bob"; body = "signature"; transports = [] }

abbrev answered : Provider
answered = record provider {
  credentials = key "k-ann" "ann" 3 ∷ key "k-bob" "bob" 8 ∷ [];
  challenges = [];
}

response_accepted :
    verify_authentication (some library) 10 "ann" response provider ≡ (answered, ok true)
unfolding verify_authentication check_challenge get_credential_by_id connect find_credential
    set_counter lookup remove
response_accepted = refl

verify_authentication-IsAccepted_example :
    IsAccepted (some library) 10 "ann" response provider answered
verify_authentication-IsAccepted_example =
    verify_authentication-IsAccepted (some library) 10 "ann" response provider answered
      response_accepted

accepted_once_example :
    verify_authentication (some library) 20 "ann" response answered
    ≡ (answered, err no_pending_challenge)
accepted_once_example =
    accepted_once (some library) 10 20 "ann" response response provider answered response_accepted

ann_pending : lookup "ann" provider.challenges ≡ some challenge
unfolding lookup
ann_pending = refl

-- ann's own key answers the challenge in a call that had read it before the other one ended
abbrev own_response : BrowserResponse
own_response = record { id = "k-ann"; body = "other signature"; transports = [] }

first_accepted :
    answer_checked library "ann" response provider
      (check_challenge authentication 10 (lookup "ann" provider.challenges))
    ≡ (answered, ok true)
unfolding answer_checked answer_challenge check_challenge get_credential_by_id connect
    find_credential set_counter lookup remove
first_accepted = refl

ann_known : find_credential "k-ann" answered.credentials ≡ some (key "k-ann" "ann" 3)
unfolding find_credential
ann_known = refl

overlapping_accepted_example :
    (answer_checked library "ann" own_response answered
      (check_challenge authentication 11 (lookup "ann" provider.challenges))).1
    ≡ ok true
overlapping_accepted_example =
    overlapping_accepted library 10 11 8 "ann" response own_response provider answered challenge
      (key "k-ann" "ann" 3) ann_pending refl (omega arith) first_accepted ann_known refl
