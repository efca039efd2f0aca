-- ===== src/Escalation/Expire/Deadlines.antt =====
-- functions/escalation-engine.js: the deadlines that a run of the timer enforces, and the rows that it
-- does not reach.
use sentinel_engine_sovereig.Base.{
  ℕ, String, true, false, none, List, [], ◌∷◌, filter, any, All, All-mem, ◌≡◌, ◌≢◌, eq_iff, ap, sym,
  ◌∙◌, ◌<◌, Bool, subst, refl, ◌≤◌, Memᴰ, arith,
}
use sentinel_engine_sovereig.Escalation.{pending, Escalation, Engine}
use sentinel_engine_sovereig.Escalation.Resolve.{is_pending}
use sentinel_engine_sovereig.Escalation.Expire.{
  blockable, bypassable, expired_row, bypassed_row, update_where, expire_stale_escalations,
}
use sentinel_engine_sovereig.Escalation.Expire.Laws.{rows_after, expire_stale_escalations_lem}

expired_row-ended : (now : ℕ) (e : Escalation) → blockable now (expired_row e) ≡ false
expired_row-ended now e = refl

bypassed_row-ended : (now : ℕ) (e : Escalation) → blockable now (bypassed_row e) ≡ false
bypassed_row-ended now e = refl

update_where-blockable :
    (now : ℕ) (rows : List Escalation)
    → All (λ e. blockable now e ≡ false) (update_where (blockable now) expired_row rows)
unfolding update_where
update_where-blockable now [] = tt
update_where-blockable now (r ∷ rs) = (ground arith, update_where-blockable now rs)

none-blockable :
    (now : ℕ) (rows : List Escalation)
    → filter (blockable now) rows ≡ []
    → All (λ e. blockable now e ≡ false) (update_where (bypassable now) bypassed_row rows)
unfolding update_where
none-blockable now [] h = tt
none-blockable now (r ∷ rs) h = (ground arith, none-blockable now rs (ground arith))

rows_after-blockable :
    (now : ℕ) (rows : List Escalation) → All (λ e. blockable now e ≡ false) (rows_after now rows)
unfolding rows_after
rows_after-blockable now rows = go (filter (blockable now) rows) refl
  where
    go :
        (rs : List Escalation)
        → filter (blockable now) rows ≡ rs
        → All (λ e. blockable now e ≡ false) (rows_after now rows)
    go [] h = rw (h, rows_after) (none-blockable now rows h)
    go (r ∷ rs) h = rw (h, rows_after) (update_where-blockable now rows)

waiting-in_time :
    (now : ℕ) (e : Escalation)
    → blockable now e ≡ false
    → e.status ≡ pending
    → e.impact_level ≢ "UTILITY_CRITICAL"
    → now ≤ e.ttl_expires_at
waiting-in_time now e h waits other =
    let waits' : is_pending e.status ≡ true = ap is_pending waits in
    ground (arith, h, waits', eq_iff e.impact_level "UTILITY_CRITICAL", other)

-- A run of the timer fails closed: with a database that answers, a request of another impact than
-- UTILITY_CRITICAL that is still pending after the run has its time left.
pub expire-IsClosed :
    (ids : ℕ → String) (timestamp : String) (now : ℕ) (s : Engine) (e : Escalation)
    → s.locker.configured ≡ true
    → s.locker.failing ≡ none
    → Memᴰ e (expire_stale_escalations ids timestamp now s).0.rows
    → e.status ≡ pending
    → e.impact_level ≢ "UTILITY_CRITICAL"
    → now ≤ e.ttl_expires_at
expire-IsClosed ids timestamp now s e on up m waits other =
    let after = (expire_stale_escalations_lem ids timestamp now s on up).0 in
    waiting-in_time now e
      (All-mem (λ e. blockable now e ≡ false) (rows_after now s.rows) e
        (rows_after-blockable now s.rows) (subst (λ rows. Memᴰ e rows) after m))
      waits other

any-mem :
    (p : Escalation → Bool) (rows : List Escalation) (e : Escalation)
    → Memᴰ e rows
    → p e ≡ true
    → any p rows ≡ true
any-mem p [] e m h = elim m [ ]
any-mem p (r ∷ rs) e (Memᴰ.head same) h =
    let own : p r ≡ true = subst (λ x. p x ≡ true) same h in ground (arith, own)
any-mem p (r ∷ rs) e (Memᴰ.tail m) h = ground (arith, any-mem p rs e m h)

update_where-mem :
    (p : Escalation → Bool) (f : Escalation → Escalation) (rows : List Escalation) (e : Escalation)
    → Memᴰ e rows
    → p e ≡ false
    → Memᴰ e (update_where p f rows)
unfolding update_where
update_where-mem p f [] e m h = elim m [ ]
update_where-mem p f (r ∷ rs) e (Memᴰ.head same) h =
    rw (subst (λ x. p x ≡ false) same h) (Memᴰ.head same)
update_where-mem p f (r ∷ rs) e (Memᴰ.tail m) h = Memᴰ.tail (update_where-mem p f rs e m h)

rows_after-starved :
    (now : ℕ) (rows : List Escalation)
    → any (blockable now) rows ≡ true
    → rows_after now rows ≡ update_where (blockable now) expired_row rows
unfolding rows_after
rows_after-starved now rows h = go (filter (blockable now) rows) refl
  where
    any-empty :
        (xs : List Escalation) → filter (blockable now) xs ≡ [] → any (blockable now) xs ≡ false
    any-empty [] e = refl
    any-empty (x ∷ xs) e = ground (arith, any-empty xs)

    go :
        (rs : List Escalation)
        → filter (blockable now) rows ≡ rs
        → rows_after now rows ≡ update_where (blockable now) expired_row rows
    go [] e = absurd (ground (arith, any-empty rows e))
    go (r ∷ rs) e = rw (e, rows_after) refl

late-blockable :
    (now : ℕ) (b : Escalation)
    → b.status ≡ pending
    → b.impact_level ≢ "UTILITY_CRITICAL"
    → b.ttl_expires_at < now
    → blockable now b ≡ true
late-blockable now b waits other late =
    let waits' : is_pending b.status ≡ true = ap is_pending waits in
    ground (arith, waits', eq_iff b.impact_level "UTILITY_CRITICAL", other, late)

utility-not_blockable :
    (now : ℕ) (e : Escalation) → e.impact_level ≡ "UTILITY_CRITICAL" → blockable now e ≡ false
utility-not_blockable now e utility =
    let same = (eq_iff e.impact_level "UTILITY_CRITICAL").1 utility in ground (arith, same)

-- One late request starves the others: with a database that answers, where a pending request of another
-- impact is late, a request of impact UTILITY_CRITICAL, late or not, stays in the same run as it was, so
-- a late one gets no safe mode.
pub expire-starves :
    (ids : ℕ → String) (timestamp : String) (now : ℕ) (s : Engine) (b e : Escalation)
    → s.locker.configured ≡ true
    → s.locker.failing ≡ none
    → Memᴰ b s.rows
    → b.status ≡ pending
    → b.impact_level ≢ "UTILITY_CRITICAL"
    → b.ttl_expires_at < now
    → Memᴰ e s.rows
    → e.impact_level ≡ "UTILITY_CRITICAL"
    → Memᴰ e (expire_stale_escalations ids timestamp now s).0.rows
expire-starves ids timestamp now s b e on up blocks waits other late m utility =
    let any_late =
      any-mem (blockable now) s.rows b blocks (late-blockable now b waits other late) in
    let after =
      (expire_stale_escalations_lem ids timestamp now s on up).0
      ∙ rows_after-starved now s.rows any_late in
    subst (λ rows. Memᴰ e rows) (sym after)
      (update_where-mem (blockable now) expired_row s.rows e m
        (utility-not_blockable now e utility))
