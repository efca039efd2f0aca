-- ===== src/AuthorityMatrix/Standing.antt =====
-- functions/authority-matrix.js: what registration and deactivation do to the standing of an authority.
use mathlib.Core.Path.{subst}
use sentinel_engine_sovereig.Base.{
  String, Bool, true, false, List, [], ◌∷◌, ok, ◌==◌, eq_iff, any, All, ◌≡◌, refl, ◌∙◌, inl, inr,
  arith, Bool-cases, leb,
}
use sentinel_engine_sovereig.AuthorityMatrix.{
  AuthorityRow, Matrix, insert_by_tier, order_by_tier, upsert, registered, register_authority,
  set_inactive, deactivate_authority,
}

-- No row of the authority is active.
abbrev pub IsStoodDown : String → List AuthorityRow → Type 0
IsStoodDown id = All (λ (r : AuthorityRow). (r.authority_id == id) ≡ true → r.is_active ≡ false)

abbrev pub has_row : String → List AuthorityRow → Bool
has_row id = any (λ (r : AuthorityRow). r.authority_id == id)

set_inactive-IsStoodDown :
    (id : String) (rows : List AuthorityRow) → IsStoodDown id (set_inactive id rows)
unfolding set_inactive
set_inactive-IsStoodDown id [] = tt
set_inactive-IsStoodDown id (r ∷ rs) = (λ h. ground arith, set_inactive-IsStoodDown id rs)

has_row-set_inactive :
    (id : String) (rows : List AuthorityRow) → has_row id (set_inactive id rows) ≡ has_row id rows
unfolding set_inactive
has_row-set_inactive id [] = refl
has_row-set_inactive id (r ∷ rs) = ground (arith, has_row-set_inactive id rs)

upsert-IsStoodDown_other :
    (id : String) (new : AuthorityRow) (rows : List AuthorityRow)
    → (new.authority_id == id) ≡ false
    → IsStoodDown id rows
    → IsStoodDown id (upsert new rows)
unfolding upsert
upsert-IsStoodDown_other id new [] ne h = (λ e. ground arith, tt)
upsert-IsStoodDown_other id new (r ∷ rs) ne h =
    elim (Bool-cases (r.authority_id == new.authority_id)) [
      | inl e ↦ rw e (h.0, h.1)
      | inr n ↦ rw n (h.0, upsert-IsStoodDown_other id new rs ne h.1)
    ]

upsert-IsStoodDown :
    (id : String) (new : AuthorityRow) (rows : List AuthorityRow)
    → has_row id rows ≡ true
    → IsStoodDown id rows
    → IsStoodDown id (upsert new rows)
unfolding upsert
upsert-IsStoodDown id new [] there h = absurd (ground arith)
upsert-IsStoodDown id new (r ∷ rs) there h =
    elim (Bool-cases (r.authority_id == new.authority_id)) [
      | inl e ↦ rw e (h.0, h.1)
      | inr n ↦ rw n (
        h.0,
        elim (Bool-cases (r.authority_id == id)) [
          | inl mine ↦
              upsert-IsStoodDown_other id new rs
                (ground (
                  arith,
                  eq_iff r.authority_id id,
                  eq_iff new.authority_id id,
                  eq_iff r.authority_id new.authority_id,
                ))
                h.1
          | inr other ↦ upsert-IsStoodDown id new rs (ground arith) h.1
        ],
      )
    ]

pub insert_by_tier-All :
    (P : AuthorityRow → Type 0) (r : AuthorityRow) (rows : List AuthorityRow)
    → P r
    → All P rows
    → All P (insert_by_tier r rows)
unfolding insert_by_tier
insert_by_tier-All P r [] p h = (p, tt)
insert_by_tier-All P r (s ∷ ss) p h = elim (Bool-cases (leb r.escalation_tier s.escalation_tier)) [
  | inl e ↦ rw e (p, h)
  | inr e ↦ rw e (h.0, insert_by_tier-All P r ss p h.1)
]

pub order_by_tier-All :
    (P : AuthorityRow → Type 0) (rows : List AuthorityRow) → All P rows → All P (order_by_tier rows)
unfolding order_by_tier
order_by_tier-All P [] h = tt
order_by_tier-All P (r ∷ rs) h =
    insert_by_tier-All P r (order_by_tier rs) h.0 (order_by_tier-All P rs h.1)

-- A second registration does not give an authority its standing back: once an authority that has a
-- row was deactivated, no registration that succeeds, of it or of another, makes a row of it active.
deactivated_stays :
    (id : String) (a : AuthorityRow) (m m' m'' : Matrix)
    → has_row id m.rows ≡ true
    → deactivate_authority id m ≡ ok (m', true)
    → register_authority a m' ≡ ok m''
    → IsStoodDown id m''.rows
unfolding deactivate_authority register_authority
deactivated_stays id a m m' m'' there off on =
    let down : set_inactive id m.rows ≡ m'.rows = ground arith in
    let made : upsert (registered a) m'.rows ≡ m''.rows = ground arith in
    subst (IsStoodDown id) made (
      subst (λ rows. IsStoodDown id (upsert (registered a) rows)) down
        (upsert-IsStoodDown id (registered a) (set_inactive id m.rows)
          (has_row-set_inactive id m.rows ∙ there) (set_inactive-IsStoodDown id m.rows)))
