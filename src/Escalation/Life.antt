-- ===== src/Escalation/Life.antt =====
-- functions/escalation-engine.js: the life of an escalation under the calls of the engine, each of
-- which runs to its end before the next begins.
pub mod Settled
pub mod Release
use sentinel_engine_sovereig.Base.{
  ℕ, String, Bool, true, false, Option, none, some, List, [], ◌∷◌, ◌++◌, Result, ok, err, ◌==◌,
  eq_iff, Bool-cases, ◌≡◌, refl, ◌⊎◌, inl, inr, ap, sym, subst, ◌∙◌, ◌≤◌, arith,
}
use sentinel_engine_sovereig.Escalation.{
  Status, pending, override_released, EngineFault, Escalation, Engine, Ids, RejectionEvent,
  create_escalation,
}
use sentinel_engine_sovereig.Escalation.Refusal.{create_escalation_throws}
use sentinel_engine_sovereig.Escalation.Resolve.{
  Verify, Resolution, find_escalation, is_pending, resolved, update_row, resolve_escalation,
}
use sentinel_engine_sovereig.Escalation.Resolve.Laws.{
  MayResolve, written, resolve_escalation_throws,
}
use sentinel_engine_sovereig.Escalation.Rows.{
  KeepsId, find-update_row_ne, find-update_where_unselected, find-append,
}
use sentinel_engine_sovereig.Escalation.Expire.{
  blockable, bypassable, expired_row, bypassed_row, update_where, expire_stale_escalations,
  list_pending,
}
use sentinel_engine_sovereig.Escalation.Expire.Laws.{rows_after, expire-rows}

-- one call of the engine, of a process that verifies keys with `verify`
pub data Step (verify : Option Verify) : Engine → Engine → Type 0 where
  create :
      (ids : Ids) (now ttl_seconds : ℕ) (e : RejectionEvent) (s : Engine)
      → Step verify s (create_escalation ids now ttl_seconds e s).0
  resolve :
      (now : ℕ) (drawn first second : String) (r : Resolution) (s : Engine)
      → Step verify s (resolve_escalation verify now drawn first second r s).0
  expire :
      (ids : ℕ → String) (timestamp : String) (now : ℕ) (s : Engine)
      → Step verify s (expire_stale_escalations ids timestamp now s).0
  list :
      (ids : ℕ → String) (timestamp : String) (now : ℕ) (tenant_id : String) (s : Engine)
      → Step verify s (list_pending ids timestamp now tenant_id s).0

pub data Reach (verify : Option Verify) : Engine → Engine → Type 0 where
  done : (s : Engine) → Reach verify s s
  next : (s t u : Engine) → Step verify s t → Reach verify t u → Reach verify s u

-- What a call makes of the rows: nothing, one more row, the row of a resolution that was checked, or
-- what the timer enforces.
pub data Change (verify : Option Verify) (s : Engine) : List Escalation → Type 0 where
  nothing : Change verify s s.rows
  added : (row : Escalation) → Change verify s (s.rows ++ row ∷ [])
  decided :
      (now : ℕ) (drawn : String) (r : Resolution) (e : Escalation)
      → MayResolve verify now r s e
      → Change verify s (update_row r.escalation_id (resolved drawn r) s.rows)
  timed : (now : ℕ) → Change verify s (rows_after now s.rows)

module _ (verify : Option Verify) where
  Change-rows :
      (s : Engine) (rows rows' : List Escalation)
      → rows ≡ rows'
      → Change verify s rows'
      → Change verify s rows
  Change-rows s rows rows' p c = subst (λ rs. Change verify s rs) (sym p) c

  expire-Change :
      (ids : ℕ → String) (timestamp : String) (now : ℕ) (s : Engine)
      → Change verify s (expire_stale_escalations ids timestamp now s).0.rows
  expire-Change ids timestamp now s = elim (expire-rows ids timestamp now s) [
    | inl p ↦ Change-rows s _ s.rows p nothing
    | inr p ↦ Change-rows s _ (rows_after now s.rows) p (timed now)
  ]

  pub Step-Change : (s t : Engine) → Step verify s t → Change verify s t.rows
  unfolding list_pending
  Step-Change _ _ (create ids now ttl_seconds e s) =
      let (fault, c) = create_escalation_throws ids now ttl_seconds e s in
      elim c [
        | inl p ↦ Change-rows s _ s.rows (ap (λ x. x.0.rows) p) nothing
        | inr (row, _, p) ↦ Change-rows s _ (s.rows ++ row ∷ []) (ap (λ x. x.0.rows) p) (added row)
      ]
  Step-Change _ _ (resolve now drawn first second r s) =
      let (fault, c) = resolve_escalation_throws verify now drawn first second r s in
      elim c [
        | inl p ↦ Change-rows s _ s.rows (ap (λ x. x.0.rows) p) nothing
        | inr (e, m, p) ↦
            Change-rows s _ (written drawn r s).rows (ap (λ x. x.0.rows) p)
              (decided now drawn r e m)
      ]
  Step-Change _ _ (expire ids timestamp now s) = expire-Change ids timestamp now s
  Step-Change _ _ (list ids timestamp now tenant_id s) = expire-Change ids timestamp now s
