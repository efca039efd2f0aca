-- ===== src/AuthorityMatrix/Chain.antt =====
-- functions/authority-matrix.js: the order and the members of an escalation chain.
use sentinel_engine_sovereig.Base.{
  ℕ, String, true, Option, none, some, List, [], ◌∷◌, ◌==◌, All, Memᴰ, All-map, All-filter,
  mem-filter_of, ◌≡◌, ap, sym, ◌≤◌, inl, inr, arith, Bool-cases, leb, ◌&&◌,
}
use sentinel_engine_sovereig.AuthorityMatrix.{
  AuthorityRow, Matrix, eligible, lower, visible, min_tier, insert_by_tier, order_by_tier,
  chain_rows,
}
use sentinel_engine_sovereig.AuthorityMatrix.Standing.{insert_by_tier-All, order_by_tier-All}

-- The lowest tier comes first.
abbrev pub IsOrdered : List AuthorityRow → Type 0
IsOrdered [] = Unit
IsOrdered (r ∷ rs) =
    All (λ (s : AuthorityRow). r.escalation_tier ≤ s.escalation_tier) rs × IsOrdered rs

insert_by_tier-IsOrdered :
    (r : AuthorityRow) (rows : List AuthorityRow)
    → IsOrdered rows
    → IsOrdered (insert_by_tier r rows)
unfolding insert_by_tier
insert_by_tier-IsOrdered r [] h = (tt, tt)
insert_by_tier-IsOrdered r (s ∷ ss) h =
    elim (Bool-cases (leb r.escalation_tier s.escalation_tier)) [
      | inl e ↦
          let below : r.escalation_tier ≤ s.escalation_tier = ground arith in
          rw e (
            (
              below,
              All-map
                  (λ (t : AuthorityRow) (q : s.escalation_tier ≤ t.escalation_tier). omega arith) ss
                  h.0,
            ),
            h,
          )
      | inr e ↦ rw e (
        insert_by_tier-All (λ (t : AuthorityRow). s.escalation_tier ≤ t.escalation_tier) r ss
            (ground arith) h.0,
        insert_by_tier-IsOrdered r ss h.1,
      )
    ]

pub order_by_tier-IsOrdered : (rows : List AuthorityRow) → IsOrdered (order_by_tier rows)
unfolding order_by_tier
order_by_tier-IsOrdered [] = tt
order_by_tier-IsOrdered (r ∷ rs) =
    insert_by_tier-IsOrdered r (order_by_tier rs) (order_by_tier-IsOrdered rs)

insert_by_tier-mem :
    (r x : AuthorityRow) (rows : List AuthorityRow)
    → Memᴰ x (r ∷ rows)
    → Memᴰ x (insert_by_tier r rows)
unfolding insert_by_tier
insert_by_tier-mem r x [] m = m
insert_by_tier-mem r x (s ∷ ss) m = elim (Bool-cases (leb r.escalation_tier s.escalation_tier)) [
  | inl e ↦ rw e m
  | inr e ↦ rw e (go m (insert_by_tier-mem r x ss))
]
  where
    go :
        Memᴰ x (r ∷ s ∷ ss)
        → (Memᴰ x (r ∷ ss) → Memᴰ x (insert_by_tier r ss))
        → Memᴰ x (s ∷ insert_by_tier r ss)
    go (Memᴰ.head e) f = Memᴰ.tail (f (Memᴰ.head e))
    go (Memᴰ.tail (Memᴰ.head e)) f = Memᴰ.head e
    go (Memᴰ.tail (Memᴰ.tail n)) f = Memᴰ.tail (f (Memᴰ.tail n))

order_by_tier-mem :
    (x : AuthorityRow) (rows : List AuthorityRow) → Memᴰ x rows → Memᴰ x (order_by_tier rows)
unfolding order_by_tier
order_by_tier-mem x [] m = m
order_by_tier-mem x (r ∷ rs) (Memᴰ.head e) = insert_by_tier-mem r x (order_by_tier rs) (Memᴰ.head e)
order_by_tier-mem x (r ∷ rs) (Memᴰ.tail m) =
    insert_by_tier-mem r x (order_by_tier rs) (Memᴰ.tail (order_by_tier-mem x rs m))

lower-le : (a : ℕ) (o : Option ℕ) → lower a o ≤ a
lower-le a none = omega arith
lower-le a (some b) = ground arith

-- The lowest tier of a blast radius is at most that of each active row of it.
min_tier-le :
    (blast_radius : String) (rows : List AuthorityRow) (r : AuthorityRow)
    → Memᴰ r rows
    → (r.blast_radius == blast_radius && r.is_active) ≡ true
    → (t : ℕ) × (min_tier blast_radius rows ≡ some t) × (t ≤ r.escalation_tier)
unfolding min_tier
min_tier-le b [] r m h = elim m [ ]
min_tier-le b (x ∷ xs) r (Memᴰ.head e) h =
    let (here, tier) = subst-head in
    (
      lower x.escalation_tier (min_tier b xs),
      rw here,
      omega (arith, tier, lower-le x.escalation_tier (min_tier b xs)),
    )
  where
    subst-head :
        ((x.blast_radius == b && x.is_active) ≡ true) × (x.escalation_tier ≡ r.escalation_tier)
    subst-head = (rw e at h, ap (λ (y : AuthorityRow). y.escalation_tier) (sym e))
min_tier-le b (x ∷ xs) r (Memᴰ.tail m) h =
    let (t, e, le) = min_tier-le b xs r m h in
    elim (Bool-cases (x.blast_radius == b && x.is_active)) [
      | inl own ↦ (lower x.escalation_tier (min_tier b xs), rw own, rw e (ground arith))
      | inr other ↦ (t, rw (other, e), le)
    ]

-- A chain is ordered from the lowest tier, and every active row that the tenant may see of the blast
-- radius stands in it; so the row that resolveAuthority chooses does.
chain_rows-mem :
    (m : Matrix) (blast_radius : String) (tenant : Option String) (r : AuthorityRow)
    → Memᴰ r m.rows
    → eligible blast_radius tenant r ≡ true
    → IsOrdered (chain_rows m blast_radius tenant) × Memᴰ r (chain_rows m blast_radius tenant)
unfolding chain_rows
chain_rows-mem m blast_radius tenant r member fits =
    let (t, e, le) = min_tier-le blast_radius m.rows r member (ground arith) in
    (
      order_by_tier-IsOrdered _,
      order_by_tier-mem r _ (mem-filter_of _ m.rows r member (rw e (ground arith))),
    )

-- No row that is inactive, or that is another tenant's, stands in a chain.
pub chain_rows-All :
    (m : Matrix) (blast_radius : String) (tenant : Option String)
    → All
        (λ (r : AuthorityRow). (r.is_active ≡ true) × (visible tenant r.tenant_id ≡ true))
        (chain_rows m blast_radius tenant)
unfolding chain_rows
chain_rows-All m blast_radius tenant =
    order_by_tier-All _ _
      (All-map (λ (r : AuthorityRow) h. (ground arith, ground arith)) _ (All-filter _ m.rows))
