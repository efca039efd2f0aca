-- ===== src/Webauthn/Assertions/Overlap.antt =====
-- functions/webauthn-provider.js: two calls of verifyAuthentication that overlap.
use sentinel_engine_sovereig.Base.{
  ℕ, String, true, none, some, ok, lookup, ◌≤◌, ◌≡◌, refl, ap, sym, subst, ◌∙◌,
}
use sentinel_engine_sovereig.Webauthn.{
  authentication, Challenge, Credential, Provider, BrowserResponse, Library, find_credential, fresh,
  check_challenge, accept, answer_challenge, answer_checked,
}
use sentinel_engine_sovereig.Webauthn.Assertions.{
  answer_checked-true, answer_challenge-true, get_credential_by_id-some, get_credential_by_id-known,
  check_challenge-pending,
}

answer_checked-fresh :
    (w : Library) (counter : ℕ) (authority text : String) (response : BrowserResponse)
    (s : Provider) (credential : Credential)
    → s.configured ≡ true
    → s.failing ≡ none
    → find_credential response.id s.credentials ≡ some credential
    → w.verify_authentication_response response text credential ≡ ok (some counter)
    → (answer_checked w authority response s (fresh text)).1 ≡ ok true
unfolding answer_checked answer_challenge accept
answer_checked-fresh w counter authority text response s credential on up known verified =
    rw
      (
        get_credential_by_id-known response.id s credential on up known,
        answer_checked,
        verified,
        answer_challenge,
        up,
        accept,
      )
      refl

-- Calls that overlap answer one challenge twice. The code waits for the database between the reading
-- of a challenge and its deletion: where two calls have both read the challenge of the authority
-- before one of them ends, and that one is accepted, the other is accepted too, if the challenge is one
-- for an authentication and not over, and the library verifies the other assertion for it with the
-- key as it is stored by then.
pub overlapping_accepted :
    (w : Library) (now later counter : ℕ) (authority : String) (response again : BrowserResponse)
    (s s' : Provider) (challenge : Challenge) (credential : Credential)
    → lookup authority s.challenges ≡ some challenge
    → challenge.kind ≡ authentication
    → later ≤ challenge.expires_at
    → answer_checked w authority response s
        (check_challenge authentication now (lookup authority s.challenges))
      ≡ (s', ok true)
    → find_credential again.id s'.credentials ≡ some credential
    → w.verify_authentication_response again challenge.challenge credential ≡ ok (some counter)
    → (answer_checked w authority again s'
        (check_challenge authentication later (lookup authority s.challenges))).1
      ≡ ok true
overlapping_accepted w now later counter authority response again s s' challenge credential pending
      kind in_time first known verified =
    let (text, found, _, read, answered) =
      answer_checked-true w authority response s s'
        (check_challenge authentication now (lookup authority s.challenges)) first in
    let (old, n, is_some, _, after) =
      answer_challenge-true w authority response text s s' found answered in
    let (_, up, on) = get_credential_by_id-some response.id s old (read ∙ ap ok is_some) in
    subst (λ check. (answer_checked w authority again s' check).1 ≡ ok true)
      (sym (
        check_challenge-pending later (lookup authority s.challenges) challenge pending kind
          in_time))
      (answer_checked-fresh w counter authority challenge.challenge again s' credential
        (ap (λ (x : Provider). x.configured) (sym after) ∙ on)
        (ap (λ (x : Provider). x.failing) (sym after) ∙ up) known verified)
