-- ===== src/Rollback/Purge.antt =====
-- functions/rollback-engine.js: what the transaction of a rollback does to the domain tables.
use sentinel_engine_sovereig.Base.{
  ◌↔◌, ◌⊎◌, ◌≢◌, Memᴰ, not, All-mem, All-filter, mem-of_filter, mem-filter_of, String, Bool, true,
  false, some, List, [], ◌∷◌, ok, >>=-eq-ok, Table, lookup, insert, lookup-insert, includes, ◌==◌,
  eq_iff, if◌then◌else◌, ◌≡◌, refl, ap, sym, subst, ◌∙◌, arith, Bool-cases, inl, inr,
}
use sentinel_engine_sovereig.Rollback.{
  DomainRow, is_of, Manifest, is_some, rows_of, delete_rows, purge,
}

delete_rows_idem :
    (tenant : String) (rows : List DomainRow)
    → delete_rows tenant (delete_rows tenant rows) ≡ delete_rows tenant rows
delete_rows_idem tenant [] = refl
delete_rows_idem tenant (r ∷ rs) = ground (arith, delete_rows_idem tenant rs)

-- the rows of a table after the transaction
abbrev after_purge : String → Bool → List DomainRow → List DomainRow
after_purge tenant purged rows = if purged then delete_rows tenant rows else rows

after_purge-deleted :
    (tenant : String) (purged : Bool) (rows : List DomainRow)
    → after_purge tenant purged (delete_rows tenant rows) ≡ delete_rows tenant rows
after_purge-deleted tenant true rows = delete_rows_idem tenant rows
after_purge-deleted tenant false rows = refl

-- one step of the loop, from what the rest of it does
purged_row :
    (tenant table name : String) (tables : Table (List DomainRow)) (here rows : List DomainRow)
    (result : Table (List DomainRow) × List String)
    → rows_of (lookup table tables) ≡ ok here
    → lookup name tables ≡ some rows
    → ((more : List DomainRow)
        → lookup name (insert table (delete_rows tenant here) tables) ≡ some more
        → lookup name result.0 ≡ some (after_purge tenant (includes result.1 name) more))
    → lookup name result.0 ≡ some (after_purge tenant (includes (table ∷ result.1) name) rows)
purged_row tenant table name tables here rows result found at later =
    let set = lookup-insert table name (delete_rows tenant here) tables in
    elim (Bool-cases (table == name)) [
      | inl mine ↦
          let same : table ≡ name = (eq_iff table name).0 mine in
          let own : lookup table tables ≡ some rows =
            subst (λ n. lookup n tables ≡ some rows) (sym same) at in
          let rows_eq : here ≡ rows = ground (arith, own, found) in
          rw mine (
            later (delete_rows tenant here) (set ∙ rw mine refl)
            ∙ ap some (after_purge-deleted tenant (includes result.1 name) here)
            ∙ ap (λ (l : List DomainRow). some (delete_rows tenant l)) rows_eq)
      | inr other ↦ rw other (later rows (set ∙ rw other at))
    ]

purge-lookup :
    (manifest : Manifest) (tenant : String) (names : List String)
    (tables tables' : Table (List DomainRow)) (purged : List String) (name : String)
    (rows : List DomainRow)
    → purge manifest tenant names tables ≡ ok (tables', purged)
    → lookup name tables ≡ some rows
    → lookup name tables' ≡ some (after_purge tenant (includes purged name) rows)
unfolding purge
purge-lookup manifest tenant [] tables tables' purged name rows h at = ground (arith, at)
purge-lookup manifest tenant (table ∷ rest) tables tables' purged name rows h at =
    elim (Bool-cases (is_some (lookup table manifest))) [
      | inr skipped ↦
          purge-lookup manifest tenant rest tables tables' purged name rows (rw skipped at h) at
      | inl listed ↦
          let h' = rw listed at h in
          let (here, found, next) = >>=-eq-ok (rows_of (lookup table tables)) _ h' in
          let (result, rest_done, end) =
            >>=-eq-ok (purge manifest tenant rest (insert table (delete_rows tenant here) tables)) _
              next in
          let same_tables : result.0 ≡ tables' = ground (arith, end) in
          let same_names : table ∷ result.1 ≡ purged = ground (arith, end) in
          subst (λ ts. lookup name ts ≡ some (after_purge tenant (includes purged name) rows))
            same_tables
            (subst (λ ns. lookup name result.0 ≡ some (after_purge tenant (includes ns name) rows))
              same_names
              (purged_row tenant table name tables here rows result found at (λ more at'.
                purge-lookup manifest tenant rest (insert table (delete_rows tenant here) tables)
                  result.0 result.1 name more rest_done at')))
    ]

-- A row is not deleted: its table was not reported as restored, or it is not the tenant's.
abbrev pub Survives : String → Bool → DomainRow → Type 0
Survives tenant purged r = (purged ≡ false) ⊎ (r.tenant_id ≢ tenant)

after_purge-mem :
    (tenant : String) (purged : Bool) (rows : List DomainRow) (r : DomainRow)
    → Memᴰ r (after_purge tenant purged rows) ↔ (Memᴰ r rows × Survives tenant purged r)
after_purge-mem tenant false rows r = ((λ m. (m, inl refl)), (λ k. k.0))
after_purge-mem tenant true rows r = (
  (λ m. (
    mem-of_filter _ rows r m,
    inr (λ same.
        let kept : (r.tenant_id == tenant) ≡ false =
          ground (arith, All-mem _ _ r (All-filter (λ r. not (is_of tenant r)) rows) m) in
        ground (arith, kept, (eq_iff r.tenant_id tenant).1 same)),
  )),
  (λ k. mem-filter_of _ rows r k.0 (elim k.1 [
    | inl off ↦ absurd (ground (arith, off))
    | inr other ↦ ground (arith, eq_iff r.tenant_id tenant, other)
  ])),
)

-- The transaction of a rollback only deletes. After it a table holds exactly the rows that it held,
-- without the rows of the tenant where the table is among those reported as restored. So no row of a
-- checkpoint comes back, and no row of another tenant is lost.
pub purge_iff :
    (manifest : Manifest) (tenant : String) (names : List String)
    (tables tables' : Table (List DomainRow)) (purged : List String) (name : String)
    (rows : List DomainRow)
    → purge manifest tenant names tables ≡ ok (tables', purged)
    → lookup name tables ≡ some rows
    → (rows' : List DomainRow) × (lookup name tables' ≡ some rows')
      × ((r : DomainRow)
          → Memᴰ r rows'
            ↔ (Memᴰ r rows × ((includes purged name ≡ false) ⊎ (r.tenant_id ≢ tenant))))
purge_iff manifest tenant names tables tables' purged name rows h at = (
  after_purge tenant (includes purged name) rows,
  purge-lookup manifest tenant names tables tables' purged name rows h at,
  after_purge-mem tenant (includes purged name) rows,
)
