-- ===== src/Webauthn/Assertions.antt =====
-- functions/webauthn-provider.js: when an assertion of a hardware key is accepted, and how often.
pub mod Overlap
use sentinel_engine_sovereig.Base.{
  ℕ, String, true, Option, none, some, Result, ok, err, lookup, remove, lookup-remove_self, ◌≤◌,
  ◌≡◌, refl, ap, sym, subst, ◌∙◌, arith,
}
use sentinel_engine_sovereig.Webauthn.{
  authentication, Challenge, Credential, Provider, WebauthnFault, no_pending_challenge,
  BrowserResponse, Library, connect, find_credential, get_credential_by_id, ChallengeCheck, missing,
  late, fresh, check_challenge, set_counter, accept, answer_challenge, answer_checked,
  verify_authentication,
}

-- What an accepted assertion rests on, and the state that it leaves.
pub record IsAccepted (library : Option Library) (now : ℕ) (authority : String)
    (response : BrowserResponse) (s s' : Provider) : Type 0 where
  pub w : Library
  pub challenge : Challenge
  pub credential : Credential
  pub counter : ℕ
  pub installed : library ≡ some w
  pub pending : lookup authority s.challenges ≡ some challenge
  pub right_kind : challenge.kind ≡ authentication
  pub in_time : now ≤ challenge.expires_at
  pub known : find_credential response.id s.credentials ≡ some credential
  pub verified :
      w.verify_authentication_response response challenge.challenge credential ≡ ok (some counter)
  pub after : s' ≡ record s {
    challenges = remove authority s.challenges;
    credentials = set_counter response.id counter s.credentials;
  }

check_challenge-fresh :
    (now : ℕ) (o : Option Challenge) (text : String)
    → check_challenge authentication now o ≡ fresh text
    → (c : Challenge) × (o ≡ some c)
      × (c.kind ≡ authentication)
      × (now ≤ c.expires_at)
      × (c.challenge ≡ text)
unfolding check_challenge
check_challenge-fresh now none text h = absurd (ground arith)
check_challenge-fresh now (some c) text h = (c, refl, ground arith, ground arith, ground arith)

get_credential_by_id-some :
    (id : String) (s : Provider) (c : Credential)
    → get_credential_by_id id s ≡ ok (some c)
    → (find_credential id s.credentials ≡ some c) × (s.failing ≡ none) × (s.configured ≡ true)
unfolding get_credential_by_id connect find_credential
get_credential_by_id-some id s c h = ground arith

accept-true :
    (authority : String) (response : BrowserResponse) (counter : ℕ) (s s' : Provider)
    → accept authority response counter s ≡ (s', ok true)
    → record s {
      challenges = remove authority s.challenges;
      credentials = set_counter response.id counter s.credentials;
    }
      ≡ s'
unfolding accept
accept-true authority response counter s s' h = ground arith

-- what the library said of an assertion that was accepted
answer_challenge-true :
    (w : Library) (authority : String) (response : BrowserResponse) (text : String)
    (s s' : Provider) (found : Option Credential)
    → answer_challenge w authority response text s found ≡ (s', ok true)
    → (c : Credential) × (n : ℕ) × (found ≡ some c)
      × (w.verify_authentication_response response text c ≡ ok (some n))
      × (record s {
        challenges = remove authority s.challenges;
        credentials = set_counter response.id n s.credentials;
      }
          ≡ s')
unfolding answer_challenge
answer_challenge-true w authority response text s s' none h = absurd (ground arith)
answer_challenge-true w authority response text s s' (some c) h =
    go (w.verify_authentication_response response text c) refl
  where
    go :
        (x : Result WebauthnFault (Option ℕ))
        → w.verify_authentication_response response text c ≡ x
        → (d : Credential) × (n : ℕ) × (some c ≡ some d)
          × (w.verify_authentication_response response text d ≡ ok (some n))
          × (record s {
            challenges = remove authority s.challenges;
            credentials = set_counter response.id n s.credentials;
          }
              ≡ s')
    go (err fault) e = absurd (ground arith)
    go (ok none) e = absurd (ground arith)
    go (ok (some n)) e =
        (c, n, refl, e, accept-true authority response n s s' (rw (e, answer_challenge) at h))

answer_checked-true :
    (w : Library) (authority : String) (response : BrowserResponse) (s s' : Provider)
    (check : ChallengeCheck)
    → answer_checked w authority response s check ≡ (s', ok true)
    → (text : String) × (found : Option Credential) × (check ≡ fresh text)
      × (get_credential_by_id response.id s ≡ ok found)
      × (answer_challenge w authority response text s found ≡ (s', ok true))
unfolding answer_checked
answer_checked-true w authority response s s' missing h = absurd (ground arith)
answer_checked-true w authority response s s' late h = absurd (ground arith)
answer_checked-true w authority response s s' (fresh text) h =
    go (get_credential_by_id response.id s) refl
  where
    go :
        (x : Result WebauthnFault (Option Credential))
        → get_credential_by_id response.id s ≡ x
        → (t : String) × (found : Option Credential) × (fresh text ≡ fresh t)
          × (get_credential_by_id response.id s ≡ ok found)
          × (answer_challenge w authority response t s found ≡ (s', ok true))
    go (err fault) e = absurd (ground arith)
    go (ok found) e = (text, found, refl, e, rw (e, answer_checked) at h)

-- An assertion is accepted only for a challenge of the authority that is pending, is one for an
-- authentication and is not over, with a key that is stored, and after the library verified it for
-- that challenge and key. The challenge is then gone, the counter of the key is the new one, and
-- nothing else has changed.
pub verify_authentication-IsAccepted :
    (library : Option Library) (now : ℕ) (authority : String) (response : BrowserResponse)
    (s s' : Provider)
    → verify_authentication library now authority response s ≡ (s', ok true)
    → IsAccepted library now authority response s s'
unfolding verify_authentication
verify_authentication-IsAccepted none now authority response s s' h = absurd (ground arith)
verify_authentication-IsAccepted (some w) now authority response s s' h =
    let (text, found, checked, read, answered) =
      answer_checked-true w authority response s s'
        (check_challenge authentication now (lookup authority s.challenges)) h in
    let (challenge, pending, kind, in_time, same_text) =
      check_challenge-fresh now (lookup authority s.challenges) text checked in
    let (credential, counter, is_some, verified, after) =
      answer_challenge-true w authority response text s s' found answered in
    let (known, up, on) =
      get_credential_by_id-some response.id s credential (read ∙ ap ok is_some) in
    record {
      w = w;
      challenge = challenge;
      credential = credential;
      counter = counter;
      installed = refl;
      pending = pending;
      right_kind = kind;
      in_time = in_time;
      known = known;
      verified =
          subst (λ t. w.verify_authentication_response response t credential ≡ ok (some counter))
            (sym same_text) verified;
      after = sym after;
    }

-- A challenge is answered once where the calls come one after the other: when an assertion was accepted
-- and its call has ended, every further one for the same authority is refused, at any time, until a
-- new challenge is made.
pub accepted_once :
    (library : Option Library) (now later : ℕ) (authority : String)
    (response again : BrowserResponse) (s s' : Provider)
    → verify_authentication library now authority response s ≡ (s', ok true)
    → verify_authentication library later authority again s' ≡ (s', err no_pending_challenge)
unfolding verify_authentication answer_checked check_challenge
accepted_once none now later authority response again s s' h = absurd (ground arith)
accepted_once (some w) now later authority response again s s' h =
    let a = verify_authentication-IsAccepted (some w) now authority response s s' h in
    let gone : lookup authority s'.challenges ≡ none =
      ap (λ (x : Provider). lookup authority x.challenges) a.after
      ∙ lookup-remove_self authority s.challenges in
    rw gone refl

check_challenge-pending :
    (now : ℕ) (o : Option Challenge) (c : Challenge)
    → o ≡ some c
    → c.kind ≡ authentication
    → now ≤ c.expires_at
    → check_challenge authentication now o ≡ fresh c.challenge
unfolding check_challenge
check_challenge-pending now none c h kind in_time = absurd (ground arith)
check_challenge-pending now (some d) c h kind in_time =
    let same : d ≡ c = ground arith in rw same (ground arith)

get_credential_by_id-known :
    (id : String) (s : Provider) (c : Credential)
    → s.configured ≡ true
    → s.failing ≡ none
    → find_credential id s.credentials ≡ some c
    → get_credential_by_id id s ≡ ok (some c)
unfolding get_credential_by_id connect
get_credential_by_id-known id s c on up known = ground arith
