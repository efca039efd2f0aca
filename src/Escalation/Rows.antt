-- ===== src/Escalation/Rows.antt =====
-- functions/escalation-engine.js: how the statements of the engine change the row of one escalation.
use sentinel_engine_sovereig.Base.{
  String, Bool, true, false, some, List, [], ◌∷◌, ◌++◌, ◌==◌, eq_iff, ◌≡◌, refl, ◌⊎◌, ap, ◌∙◌,
  arith, Bool-cases, inl, inr,
}
use mathlib.Core.Option
use sentinel_engine_sovereig.Escalation.{Escalation}
use sentinel_engine_sovereig.Escalation.Resolve.{Resolution, find_escalation, resolved, update_row}
use sentinel_engine_sovereig.Escalation.Expire.{update_where}

-- A change of a row that leaves its id as it was.
abbrev pub KeepsId : (Escalation → Escalation) → Type 0
KeepsId f = (e : Escalation) → (f e).escalation_id ≡ e.escalation_id

pub find-update_row :
    (id : String) (f : Escalation → Escalation) (rows : List Escalation)
    → KeepsId f
    → find_escalation id (update_row id f rows) ≡ Option.map f (find_escalation id rows)
unfolding find_escalation update_row
find-update_row id f [] k = refl
find-update_row id f (r ∷ rs) k = ground (arith, k r, find-update_row id f rs k)

pub find-update_row_ne :
    (id j : String) (f : Escalation → Escalation) (rows : List Escalation)
    → KeepsId f
    → (id == j) ≡ false
    → find_escalation j (update_row id f rows) ≡ find_escalation j rows
unfolding find_escalation update_row
find-update_row_ne id j f [] k ne = refl
find-update_row_ne id j f (r ∷ rs) k ne = ground (
  arith,
  k r,
  find-update_row_ne id j f rs k ne,
  eq_iff r.escalation_id id,
  eq_iff r.escalation_id j,
  eq_iff id j,
)

-- A row that the clause does not select stays as it was.
pub find-update_where_unselected :
    (id : String) (p : Escalation → Bool) (f : Escalation → Escalation) (rows : List Escalation)
    (e : Escalation)
    → KeepsId f
    → find_escalation id rows ≡ some e
    → p e ≡ false
    → find_escalation id (update_where p f rows) ≡ some e
unfolding find_escalation update_where
find-update_where_unselected id p f [] e k h u = absurd (ground arith)
find-update_where_unselected id p f (r ∷ rs) e k h u = elim (Bool-cases (r.escalation_id == id)) [
  | inl mine ↦
      let same : r ≡ e = ground arith in
      let skip : p r ≡ false = ap p same ∙ u in rw skip (rw mine (ap some same))
  | inr other ↦ ground (arith, k r, find-update_where_unselected id p f rs e k (ground arith) u)
]

-- A row is as it was, or as the change makes it.
pub find-update_where_cases :
    (id : String) (p : Escalation → Bool) (f : Escalation → Escalation) (rows : List Escalation)
    (e : Escalation)
    → KeepsId f
    → find_escalation id rows ≡ some e
    → (find_escalation id (update_where p f rows) ≡ some e)
      ⊎ (find_escalation id (update_where p f rows) ≡ some (f e))
unfolding find_escalation update_where
find-update_where_cases id p f [] e k h = absurd (ground arith)
find-update_where_cases id p f (r ∷ rs) e k h = elim (Bool-cases (r.escalation_id == id)) [
  | inl mine ↦
      let same : some r ≡ some e = rw mine at h in
      elim (Bool-cases (p r)) [
        | inl chosen ↦
            let kept : ((f r).escalation_id == id) ≡ true = ap (λ i. i == id) (k r) ∙ mine in
            inr (rw chosen (rw kept (ap (Option.map f) same)))
        | inr left_out ↦ inl (rw left_out (rw mine same))
      ]
  | inr other ↦ elim (find-update_where_cases id p f rs e k (rw other at h)) [
    | inl old ↦ inl (ground (arith, k r, old))
    | inr new ↦ inr (ground (arith, k r, new))
  ]
]

pub resolved-KeepsId : (drawn : String) (r : Resolution) → KeepsId (resolved drawn r)
unfolding resolved
resolved-KeepsId drawn r e = refl

pub find-append :
    (id : String) (rows more : List Escalation) (e : Escalation)
    → find_escalation id rows ≡ some e
    → find_escalation id (rows ++ more) ≡ some e
unfolding find_escalation
find-append id [] more e h = absurd (ground arith)
find-append id (r ∷ rs) more e h = ground (arith, find-append id rs more e)
