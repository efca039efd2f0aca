-- ===== src/Escalation/Life/Release.antt =====
-- functions/escalation-engine.js: what a release of a blocked answer rests on.
use mathlib.Core.Option
use sentinel_engine_sovereig.Base.{
  ℕ, String, Bool, true, Option, none, some, List, [], ◌∷◌, ◌++◌, ok, ◌==◌, eq_iff, Bool-cases, ◌≡◌,
  refl, ◌≢◌, ◌⊎◌, inl, inr, ap, sym, subst, ◌∙◌, ◌≤◌, filter, arith,
}
use sentinel_engine_sovereig.Escalation.{override_released, Escalation, Engine}
use sentinel_engine_sovereig.Escalation.Refusal.{create_escalation_throws}
use sentinel_engine_sovereig.Escalation.Resolve.{
  Verify, Resolution, find_escalation, is_pending, resolved, update_row,
}
use sentinel_engine_sovereig.Escalation.Resolve.Laws.{MayResolve, resolve_escalation_throws}
use sentinel_engine_sovereig.Escalation.Rows.{
  KeepsId, resolved-KeepsId, find-update_row, find-update_row_ne, find-update_where_cases,
  find-append,
}
use sentinel_engine_sovereig.Escalation.Expire.{
  blockable, bypassable, expired_row, bypassed_row, update_where, expire_stale_escalations,
  list_pending,
}
use sentinel_engine_sovereig.Escalation.Expire.Laws.{rows_after, expire-rows}
use sentinel_engine_sovereig.Escalation.Life.{Step, create, resolve, expire, list}

-- A decision at `now` to release this request, in time; where there is a provider, it verified the key.
pub record IsRelease (verify : Option Verify) (id : String) (e : Escalation) (r : Resolution)
    (now : ℕ) : Type 0 where
  pub same_request : r.escalation_id ≡ id
  pub release : r.decision ≡ "OVERRIDE_RELEASE"
  pub authentic :
      (verify ≡ none)
      ⊎ ((v : Verify) × (verify ≡ some v) × (v r.authority_id r.webauthn_assertion ≡ ok true))
  pub in_time : now ≤ e.ttl_expires_at

-- A call is a decision to release this request.
abbrev pub IsReleaseBy :
    (verify : Option Verify) (id : String) (e : Escalation) (s t : Engine)
    → Step verify s t
    → Type 0
IsReleaseBy verify id e _ _ (create ids now ttl_seconds event s) = ⊥
IsReleaseBy verify id e _ _ (resolve now drawn first second r s) = IsRelease verify id e r now
IsReleaseBy verify id e _ _ (expire ids timestamp now s) = ⊥
IsReleaseBy verify id e _ _ (list ids timestamp now tenant_id s) = ⊥

-- a status that is not a release
abbrev Unreleased : Escalation → Type 0
Unreleased e = e.status ≢ override_released

update_where-Unreleased :
    (id : String) (p : Escalation → Bool) (f : Escalation → Escalation) (rows : List Escalation)
    (e e' : Escalation)
    → KeepsId f
    → find_escalation id rows ≡ some e
    → Unreleased e
    → Unreleased (f e)
    → find_escalation id (update_where p f rows) ≡ some e'
    → Unreleased e'
update_where-Unreleased id p f rows e e' k h u v h' =
    elim (find-update_where_cases id p f rows e k h) [
      | inl old ↦ let same : e ≡ e' = ground arith in subst Unreleased same u
      | inr new ↦ let same : f e ≡ e' = ground arith in subst Unreleased same v
    ]

rows_after-Unreleased :
    (id : String) (now : ℕ) (rows : List Escalation) (e e' : Escalation)
    → find_escalation id rows ≡ some e
    → Unreleased e
    → find_escalation id (rows_after now rows) ≡ some e'
    → Unreleased e'
unfolding rows_after
rows_after-Unreleased id now rows e e' h u = go (filter (blockable now) rows) refl
  where
    go :
        (rs : List Escalation)
        → filter (blockable now) rows ≡ rs
        → find_escalation id (rows_after now rows) ≡ some e'
        → Unreleased e'
    go [] p h' =
        update_where-Unreleased id (bypassable now) bypassed_row rows e e' (λ x. refl) h u
          (λ q. ground arith) (rw (p, rows_after) at h')
    go (r ∷ rs) p h' =
        update_where-Unreleased id (blockable now) expired_row rows e e' (λ x. refl) h u
          (λ q. ground arith) (rw (p, rows_after) at h')

waiting-Unreleased : (e : Escalation) → is_pending e.status ≡ true → Unreleased e
waiting-Unreleased e waits q = ground (arith, waits)

release-decision :
    (drawn : String) (r : Resolution) (e : Escalation)
    → (resolved drawn r e).status ≡ override_released
    → r.decision ≡ "OVERRIDE_RELEASE"
unfolding resolved
release-decision drawn r e h = ground (arith, eq_iff r.decision "OVERRIDE_RELEASE")

module _ (verify : Option Verify) (id : String) (e e' : Escalation)
    (released : e'.status ≡ override_released) where
  kept-Unreleased :
      (rows : List Escalation)
      → Unreleased e
      → find_escalation id rows ≡ some e
      → find_escalation id rows ≡ some e'
      → ⊥
  kept-Unreleased rows u h h' =
      let same : e ≡ e' = ground (arith, h, h') in subst Unreleased same u released

  decided-IsRelease :
      (s : Engine) (now : ℕ) (drawn : String) (r : Resolution) (f : Escalation)
      → Unreleased e
      → find_escalation id s.rows ≡ some e
      → MayResolve verify now r s f
      → find_escalation id (update_row r.escalation_id (resolved drawn r) s.rows) ≡ some e'
      → IsRelease verify id e r now
  decided-IsRelease s now drawn r f u found m h' = elim (Bool-cases (r.escalation_id == id)) [
    | inl mine ↦
        let same : r.escalation_id ≡ id = (eq_iff r.escalation_id id).0 mine in
        let one : f ≡ e =
          ground (arith, found, subst (λ i. find_escalation i s.rows ≡ some f) same m.found) in
        let new : find_escalation id (update_row r.escalation_id (resolved drawn r) s.rows)
            ≡ some (resolved drawn r e) =
          subst
            (λ i.
              find_escalation id (update_row i (resolved drawn r) s.rows)
              ≡ some (resolved drawn r e))
            (sym same)
            (find-update_row id (resolved drawn r) s.rows (resolved-KeepsId drawn r)
              ∙ ap (Option.map (resolved drawn r)) found) in
        let after : e' ≡ resolved drawn r e = ground (arith, new, h') in
        record {
          same_request = same;
          release =
              release-decision drawn r e (ap (λ (x : Escalation). x.status) (sym after) ∙ released);
          authentic = m.authentic;
          in_time = subst (λ (x : Escalation). now ≤ x.ttl_expires_at) one m.in_time;
        }
    | inr other ↦
        let apart =
          find-update_row_ne r.escalation_id id (resolved drawn r) s.rows (resolved-KeepsId drawn r)
            other in
        absurd (kept-Unreleased s.rows u found (sym apart ∙ h'))
  ]

  expired-Unreleased :
      (ids : ℕ → String) (timestamp : String) (now : ℕ) (s : Engine)
      → Unreleased e
      → find_escalation id s.rows ≡ some e
      → find_escalation id (expire_stale_escalations ids timestamp now s).0.rows ≡ some e'
      → ⊥
  expired-Unreleased ids timestamp now s u found h' = elim (expire-rows ids timestamp now s) [
    | inl p ↦
        kept-Unreleased s.rows u found (subst (λ rows. find_escalation id rows ≡ some e') p h')
    | inr p ↦
        rows_after-Unreleased id now s.rows e e' found u
          (subst (λ rows. find_escalation id rows ≡ some e') p h') released
  ]

  -- A request that waits is released by one call only: a resolution of this very request whose decision
  -- is OVERRIDE_RELEASE, made at a moment when its time is not over and, where the engine has a provider,
  -- with a key that the provider verified. No deadline and no other request releases it.
  pub Step-IsRelease :
      (s t : Engine) (step : Step verify s t)
      → is_pending e.status ≡ true
      → find_escalation id s.rows ≡ some e
      → find_escalation id t.rows ≡ some e'
      → IsReleaseBy verify id e s t step
  unfolding list_pending
  Step-IsRelease _ _ (create ids now ttl_seconds event s) waits found h' =
      let (fault, c) = create_escalation_throws ids now ttl_seconds event s in
      elim c [
        | inl p ↦
            kept-Unreleased s.rows (waiting-Unreleased e waits) found
              (subst (λ x. find_escalation id x.0.rows ≡ some e') p h')
        | inr (row, _, p) ↦
            kept-Unreleased (s.rows ++ row ∷ []) (waiting-Unreleased e waits)
              (find-append id s.rows (row ∷ []) e found)
              (subst (λ x. find_escalation id x.0.rows ≡ some e') p h')
      ]
  Step-IsRelease _ _ (resolve now drawn first second r s) waits found h' =
      let (fault, c) = resolve_escalation_throws verify now drawn first second r s in
      elim c [
        | inl p ↦ absurd (
            kept-Unreleased s.rows (waiting-Unreleased e waits) found
              (subst (λ x. find_escalation id x.0.rows ≡ some e') p h'))
        | inr (f, m, p) ↦
            decided-IsRelease s now drawn r f (waiting-Unreleased e waits) found m
              (subst (λ x. find_escalation id x.0.rows ≡ some e') p h')
      ]
  Step-IsRelease _ _ (expire ids timestamp now s) waits found h' =
      expired-Unreleased ids timestamp now s (waiting-Unreleased e waits) found h'
  Step-IsRelease _ _ (list ids timestamp now tenant_id s) waits found h' =
      expired-Unreleased ids timestamp now s (waiting-Unreleased e waits) found h'
