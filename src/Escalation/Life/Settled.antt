-- ===== src/Escalation/Life/Settled.antt =====
-- functions/escalation-engine.js: a request that was decided stays as it was decided.
use sentinel_engine_sovereig.Base.{
  ℕ, String, false, Option, some, List, [], ◌∷◌, ◌==◌, eq_iff, Bool-cases, ◌≡◌, refl, inl, inr,
  subst, ◌∙◌, filter, arith,
}
use sentinel_engine_sovereig.Escalation.{Escalation, Engine}
use sentinel_engine_sovereig.Escalation.Resolve.{Verify, find_escalation, is_pending, resolved}
use sentinel_engine_sovereig.Escalation.Rows.{
  resolved-KeepsId, find-update_row_ne, find-update_where_unselected, find-append,
}
use sentinel_engine_sovereig.Escalation.Expire.{blockable, bypassable, expired_row, bypassed_row}
use sentinel_engine_sovereig.Escalation.Expire.Laws.{rows_after}
use sentinel_engine_sovereig.Escalation.Life.{
  Reach, done, next, Change, nothing, added, decided, timed, Step-Change,
}

find-rows_after :
    (id : String) (now : ℕ) (rows : List Escalation) (e : Escalation)
    → find_escalation id rows ≡ some e
    → is_pending e.status ≡ false
    → find_escalation id (rows_after now rows) ≡ some e
unfolding rows_after
find-rows_after id now rows e h settled = go (filter (blockable now) rows) refl
  where
    go :
        (rs : List Escalation)
        → filter (blockable now) rows ≡ rs
        → find_escalation id (rows_after now rows) ≡ some e
    go [] p =
        rw (p, rows_after)
          (find-update_where_unselected id (bypassable now) bypassed_row rows e (λ x. refl) h
            (ground arith))
    go (r ∷ rs) p =
        rw (p, rows_after)
          (find-update_where_unselected id (blockable now) expired_row rows e (λ x. refl) h
            (ground arith))

module _ (verify : Option Verify) where
  settled-Change :
      (id : String) (s : Engine) (rows : List Escalation) (e : Escalation)
      → Change verify s rows
      → find_escalation id s.rows ≡ some e
      → is_pending e.status ≡ false
      → find_escalation id rows ≡ some e
  settled-Change id s _ e nothing h settled = h
  settled-Change id s _ e (added row) h settled = find-append id s.rows (row ∷ []) e h
  settled-Change id s _ e (decided now drawn r f m) h settled =
      elim (Bool-cases (r.escalation_id == id)) [
        | inl mine ↦
            let same : r.escalation_id ≡ id = (eq_iff r.escalation_id id).0 mine in
            let found : find_escalation id s.rows ≡ some f =
              subst (λ i. find_escalation i s.rows ≡ some f) same m.found in
            absurd (ground (arith, found, m.open_still))
        | inr other ↦
            find-update_row_ne r.escalation_id id (resolved drawn r) s.rows
              (resolved-KeepsId drawn r) other
            ∙ h
      ]
  settled-Change id s _ e (timed now) h settled = find-rows_after id now s.rows e h settled

-- A request that has left `pending` keeps its row for ever, whatever calls of the engine follow: no
-- later decision and no deadline changes what was decided, as long as each call runs to its end
-- before the next begins.
pub Reach-IsSettled :
    (verify : Option Verify) (id : String) (s t : Engine) (e : Escalation)
    → Reach verify s t
    → find_escalation id s.rows ≡ some e
    → is_pending e.status ≡ false
    → find_escalation id t.rows ≡ some e
Reach-IsSettled verify id s _ e (done _) h settled = h
Reach-IsSettled verify id s _ e (next _ t u step rest) h settled =
    Reach-IsSettled verify id t u e rest
      (settled-Change verify id s t.rows e (Step-Change verify s t step) h settled) settled
