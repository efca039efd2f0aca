-- ===== src/Escalation/Expire/Laws.antt =====
-- functions/escalation-engine.js: what the enforcement of the time limit does to the rows.
use sentinel_engine_sovereig.Base.{
  ℕ, String, Bool, true, none, some, List, [], ◌∷◌, ◌+◌, Result, ok, err, length, filter,
  Bool-cases, Option-cases, ◌≡◌, refl, ◌⊎◌, inl, inr, ap, ◌∙◌, arith,
}
use sentinel_engine_sovereig.EvidenceLocker.{DbFault, get_sql, execute}
use sentinel_engine_sovereig.Escalation.{EngineFault, Escalation, Engine, lift_db, and_then}
use sentinel_engine_sovereig.Escalation.Refusal.{record_in-refused}
use sentinel_engine_sovereig.Escalation.Expire.{
  blockable, bypassable, expired_row, bypassed_row, update_where, record_blocked, reduce_for,
  bypass_all, phase_one, phase_two, try_expire, caught, expire_stale_escalations,
}

-- The loop of phase 1 goes on only where no row was stale, and changes nothing.
record_blocked-cons :
    (ids : ℕ → String) (r : Escalation) (rs : List Escalation) (s : Engine)
    → (fault : EngineFault) × (record_blocked ids (r ∷ rs) s ≡ (s, err fault))
unfolding record_blocked
record_blocked-cons ids r rs s =
    let (fault, e) =
      record_in-refused (ids (length rs)) r.request_id "HUMAN_CONFIRM_REJECTION" r.tenant_id
        "TTL_EXPIRED" none s in
    (fault, rw e)

reduce_for-rows : (id timestamp : String) (s : Engine) → (reduce_for id timestamp s).0.rows ≡ s.rows
unfolding reduce_for
reduce_for-rows id timestamp s = ground arith

-- The loop of phase 2 stops at its first row.
bypass_all-cons :
    (ids : ℕ → String) (timestamp : String) (r : Escalation) (rs : List Escalation) (s : Engine)
    → (fault : EngineFault) × ((bypass_all ids timestamp (r ∷ rs) s).1 ≡ err fault)
      × ((bypass_all ids timestamp (r ∷ rs) s).0.rows ≡ s.rows)
unfolding bypass_all
bypass_all-cons ids timestamp r rs s =
    go (reduce_for (ids (length rs)) timestamp s) refl
      (reduce_for-rows (ids (length rs)) timestamp s)
  where
    go :
        (x : Engine × Result EngineFault (Unit {0}))
        → reduce_for (ids (length rs)) timestamp s ≡ x
        → (reduce_for (ids (length rs)) timestamp s).0.rows ≡ s.rows
        → (fault : EngineFault) × ((bypass_all ids timestamp (r ∷ rs) s).1 ≡ err fault)
          × ((bypass_all ids timestamp (r ∷ rs) s).0.rows ≡ s.rows)
    go (s1, err fault) e same = (fault, rw (e, bypass_all), rw (e, bypass_all) (rw e at same))
    go (s1, ok u) e same =
        let (fault, refused) =
          record_in-refused (ids (length rs)) r.request_id "GOVERNANCE_FINDING" r.tenant_id
            "MONOTONIC_REDUCTION_TRIGGERED" (some "SYSTEM_MONOTONIC_REDUCTION") s1 in
        (fault, rw (e, refused, bypass_all), rw (e, refused, bypass_all) (rw e at same))

-- phase 2 changes the rows only by its statement
phase_two-rows :
    (ids : ℕ → String) (timestamp : String) (now : ℕ) (s : Engine)
    → (phase_two ids timestamp now s).0.rows ≡ update_where (bypassable now) bypassed_row s.rows
unfolding phase_two bypass_all
phase_two-rows ids timestamp now s = loop (filter (bypassable now) s.rows) _
  where
    loop : (rs : List Escalation) (t : Engine) → (bypass_all ids timestamp rs t).0.rows ≡ t.rows
    loop [] t = refl
    loop (r ∷ rs) t = (bypass_all-cons ids timestamp r rs t).2

phase_two-empty :
    (ids : ℕ → String) (timestamp : String) (now : ℕ) (s : Engine)
    → filter (bypassable now) s.rows ≡ []
    → (phase_two ids timestamp now s).1 ≡ ok tt
unfolding phase_two bypass_all
phase_two-empty ids timestamp now s h = rw (h, phase_two)

update_where-empty :
    (p : Escalation → Bool) (f : Escalation → Escalation) (rows : List Escalation)
    → filter p rows ≡ []
    → update_where p f rows ≡ rows
unfolding update_where
update_where-empty p f [] h = refl
update_where-empty p f (r ∷ rs) h = ground (arith, update_where-empty p f rs)

-- what a run of the timer leaves in the table: the statement of phase 1, and that of phase 2 where
-- phase 1 had nothing to do
unfoldable pub rows_after : ℕ → List Escalation → List Escalation
rows_after now rows = elim (filter (blockable now) rows) [
  | [] ↦ update_where (bypassable now) bypassed_row rows
  | _ ∷ _ ↦ update_where (blockable now) expired_row rows
]

phase_one-blocked :
    (ids : ℕ → String) (now : ℕ) (s : Engine) (r : Escalation) (rs : List Escalation)
    → filter (blockable now) s.rows ≡ r ∷ rs
    → (fault : EngineFault) × (phase_one ids now s
        ≡ (record s { rows = update_where (blockable now) expired_row s.rows }, err fault))
unfolding phase_one
phase_one-blocked ids now s r rs h =
    let (fault, e) =
      record_blocked-cons ids r rs
        (record s { rows = update_where (blockable now) expired_row s.rows }) in
    (fault, rw (h, phase_one) e)

phase_one-empty :
    (ids : ℕ → String) (now : ℕ) (s : Engine)
    → filter (blockable now) s.rows ≡ []
    → phase_one ids now s ≡ (s, ok tt)
unfolding phase_one record_blocked
phase_one-empty ids now s h =
    rw (h, phase_one) (rw (update_where-empty (blockable now) expired_row s.rows h) refl)

try_expire-blocked :
    (ids : ℕ → String) (timestamp : String) (now : ℕ) (s : Engine) (r : Escalation)
    (rs : List Escalation)
    → s.locker.failing ≡ none
    → filter (blockable now) s.rows ≡ r ∷ rs
    → caught (try_expire ids timestamp now s)
      ≡ (record s { rows = update_where (blockable now) expired_row s.rows }, ok 0)
unfolding try_expire caught
try_expire-blocked ids timestamp now s r rs up h =
    let (fault, e) = phase_one-blocked ids now s r rs h in
    let answers : lift_db (execute s.locker) ≡ ok tt = unfold execute in rw up refl in
    rw (answers, e, try_expire)

-- the count of a run: it is 0 where phase 2 has nothing to count, and where it throws
silent :
    (x : Engine × Result EngineFault (Unit {0})) (n : ℕ)
    → (n ≡ 0) ⊎ ((fault : EngineFault) × (x.1 ≡ err fault))
    → ((caught (and_then x λ s2. (s2, ok n))).0 ≡ x.0)
      × ((caught (and_then x λ s2. (s2, ok n))).1 ≡ ok 0)
unfolding caught
silent (s, ok u) n (inl zero_count) = (refl, ap ok zero_count)
silent (s, ok u) n (inr (fault, e)) = cc
silent (s, err f) n h = (refl, refl)

phase_two-throws :
    (ids : ℕ → String) (timestamp : String) (now : ℕ) (s : Engine)
    → (0 + length (filter (bypassable now) s.rows) ≡ 0)
      ⊎ ((fault : EngineFault) × ((phase_two ids timestamp now s).1 ≡ err fault))
unfolding phase_two
phase_two-throws ids timestamp now s = go (filter (bypassable now) s.rows) _
  where
    go :
        (rs : List Escalation) (t : Engine)
        → (0 + length rs ≡ 0)
          ⊎ ((fault : EngineFault) × ((bypass_all ids timestamp rs t).1 ≡ err fault))
    go [] t = inl refl
    go (r ∷ rs) t = let (fault, e, _) = bypass_all-cons ids timestamp r rs t in inr (fault, e)

try_expire-empty :
    (ids : ℕ → String) (timestamp : String) (now : ℕ) (s : Engine)
    → s.locker.failing ≡ none
    → filter (blockable now) s.rows ≡ []
    → ((caught (try_expire ids timestamp now s)).0.rows
        ≡ update_where (bypassable now) bypassed_row s.rows)
      × ((caught (try_expire ids timestamp now s)).1 ≡ ok 0)
unfolding try_expire
try_expire-empty ids timestamp now s up h =
    let answers : lift_db (execute s.locker) ≡ ok tt = unfold execute in rw up refl in
    let e = phase_one-empty ids now s h in
    let (state, count) =
      silent (phase_two ids timestamp now s) (0 + length (filter (bypassable now) s.rows))
        (phase_two-throws ids timestamp now s) in
    rw (answers, e, try_expire, h)
      (ap (λ (t : Engine). t.rows) state ∙ phase_two-rows ids timestamp now s, count)

-- One run of the timer, with a database that answers: it always reports 0, and the table it leaves
-- has the blocks of phase 1, or the bypasses of phase 2 only where no row was to be blocked.
pub expire_stale_escalations_lem :
    (ids : ℕ → String) (timestamp : String) (now : ℕ) (s : Engine)
    → s.locker.configured ≡ true
    → s.locker.failing ≡ none
    → ((expire_stale_escalations ids timestamp now s).0.rows ≡ rows_after now s.rows)
      × ((expire_stale_escalations ids timestamp now s).1 ≡ ok 0)
unfolding expire_stale_escalations rows_after
expire_stale_escalations_lem ids timestamp now s on up = go (filter (blockable now) s.rows) refl
  where
    answers : lift_db (get_sql s.locker) ≡ ok tt
    answers = unfold get_sql in rw on refl

    go :
        (rs : List Escalation)
        → filter (blockable now) s.rows ≡ rs
        → ((expire_stale_escalations ids timestamp now s).0.rows ≡ rows_after now s.rows)
          × ((expire_stale_escalations ids timestamp now s).1 ≡ ok 0)
    go [] h =
        rw (answers, expire_stale_escalations, h, rows_after)
          (try_expire-empty ids timestamp now s up h)
    go (r ∷ rs) h =
        rw (answers, expire_stale_escalations, h, rows_after)
          (rw (try_expire-blocked ids timestamp now s r rs up h) (refl, refl))

-- A run that cannot reach the database leaves the rows as they were.
expire-unreachable :
    (ids : ℕ → String) (timestamp : String) (now : ℕ) (s : Engine) (fault : DbFault)
    → s.locker.failing ≡ some fault
    → (expire_stale_escalations ids timestamp now s).0.rows ≡ s.rows
unfolding expire_stale_escalations try_expire caught get_sql execute
expire-unreachable ids timestamp now s fault down = elim (Bool-cases s.locker.configured) [
  | inl on ↦ rw (on, down) refl
  | inr off ↦ rw off refl
]

pub expire-rows :
    (ids : ℕ → String) (timestamp : String) (now : ℕ) (s : Engine)
    → ((expire_stale_escalations ids timestamp now s).0.rows ≡ s.rows)
      ⊎ ((expire_stale_escalations ids timestamp now s).0.rows ≡ rows_after now s.rows)
unfolding expire_stale_escalations get_sql
expire-rows ids timestamp now s = elim (Option-cases s.locker.failing) [
  | inr (fault, down) ↦ inl (expire-unreachable ids timestamp now s fault down)
  | inl up ↦ elim (Bool-cases s.locker.configured) [
    | inr off ↦ inl (rw off refl)
    | inl on ↦ inr ((expire_stale_escalations_lem ids timestamp now s on up).0)
  ]
]
