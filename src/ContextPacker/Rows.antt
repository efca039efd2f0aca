-- ===== src/ContextPacker/Rows.antt =====
-- functions/adapters/context-packer.js: which rows are packed, and which are protected.
use Prim.Native.String.{count}
use sentinel_engine_sovereig.Base.{
  ℕ, suc, zero, String, true, List, [], ◌∷◌, ◌++◌, ◌+◌, ◌-◌, ◌≤◌, ◌<◌, leb, ltb, take_text, ◌⧺◌,
  length, ◌≡◌, refl, ◌⊎◌, inl, inr, ap, arith, Bool-cases,
}
use sentinel_engine_sovereig.ContextPacker.{
  Trim, join, cut_row, pack_rows, internal_rows, take_rows, max_of_two, protected_internal,
}
use sentinel_engine_sovereig.ContextPacker.Budget.{cost}

-- The end of what is packed: nothing, or the next row, cut to more than 50 characters and marked.
abbrev pub IsEnd : List String → List String → Type 0
IsEnd rest end =
    (end ≡ [])
    ⊎ ((row : String) × (later : List String) × (n : ℕ) × (rest ≡ row ∷ later)
        × (50 < n)
        × (end ≡ (take_text n row ⧺ "...[TRUNCATED]") ∷ []))

-- What is packed is the first rows, whole, and an end.
pub record IsPacked (rows packed : List String) : Type 0 where
  pub whole : List String
  pub rest : List String
  pub end : List String
  pub split : rows ≡ whole ++ rest
  pub made : packed ≡ whole ++ end
  pub ends : IsEnd rest end

cut_row-IsEnd : (n : ℕ) (row : String) (later : List String) → IsEnd (row ∷ later) (cut_row n row)
cut_row-IsEnd n row later = elim (Bool-cases (ltb 50 n)) [
  | inl long ↦ rw long (inr (row, later, n, refl, ground arith, refl))
  | inr short ↦ rw short (inl refl)
]

pack_rows-IsPacked :
    (budget packed used : ℕ) (rows : List String)
    → IsPacked rows (pack_rows budget packed used rows)
unfolding pack_rows
pack_rows-IsPacked budget packed used [] = record {
  whole = [];
  rest = [];
  end = [];
  split = refl;
  made = refl;
  ends = inl refl;
}
pack_rows-IsPacked budget packed used (row ∷ rows) =
    elim (Bool-cases (leb (used + (count row + 1)) budget)) [
      | inl fits ↦
          let p = pack_rows-IsPacked budget (suc packed) (used + (count row + 1)) rows in
          rw fits (record {
            whole = row ∷ p.whole;
            rest = p.rest;
            end = p.end;
            split = ap (λ (l : List String). row ∷ l) p.split;
            made = ap (λ (l : List String). row ∷ l) p.made;
            ends = p.ends;
          })
      | inr over ↦ elim (Bool-cases (ltb packed 10)) [
        | inl few ↦ rw over (
            rw few (record {
              whole = [];
              rest = row ∷ rows;
              end = cut_row (budget - used - 1) row;
              split = refl;
              made = refl;
              ends = cut_row-IsEnd (budget - used - 1) row rows;
            }))
        | inr enough ↦ rw over (
            rw enough (record {
              whole = [];
              rest = row ∷ rows;
              end = [];
              split = refl;
              made = refl;
              ends = inl refl;
            }))
      ]
    ]

pack_rows-all :
    (budget packed used : ℕ) (rows : List String)
    → used + cost rows ≤ budget
    → pack_rows budget packed used rows ≡ rows
unfolding pack_rows
pack_rows-all budget packed used [] h = refl
pack_rows-all budget packed used (row ∷ rows) h =
    let fits : leb (used + (count row + 1)) budget ≡ true = ground arith in
    rw fits (
      ap (λ (l : List String). row ∷ l)
        (pack_rows-all budget (suc packed) (used + (count row + 1)) rows (omega arith)))

-- Rows are packed whole, in their order and from the first on; only the last one may be cut, and
-- then more than 50 characters of it stay and it is marked. Where all of them fit, all are packed.
pack_rows_lem :
    (budget : ℕ) (rows : List String)
    → IsPacked rows (pack_rows budget 0 0 rows)
      × (cost rows ≤ budget → pack_rows budget 0 0 rows ≡ rows)
pack_rows_lem budget rows =
    (pack_rows-IsPacked budget 0 0 rows, λ h. pack_rows-all budget 0 0 rows (omega arith))

take_rows-all : (n : ℕ) (rows : List String) → length rows ≤ n → take_rows n rows ≡ rows
unfolding take_rows
take_rows-all n [] h = refl
take_rows-all zero (row ∷ rows) h = absurd (omega arith)
take_rows-all (suc n) (row ∷ rows) h =
    ap (λ (l : List String). row ∷ l) (take_rows-all n rows (omega arith))

-- The number of protected rows protects every row: no row of the internal context that is not blank
-- is ever left out of a merge, however many there are.
protected_internal-all :
    (trim : Trim) (internal : String)
    → protected_internal trim internal ≡ join "\n" (internal_rows trim internal)
unfolding protected_internal
protected_internal-all trim internal =
    let rows = internal_rows trim internal in
    ap (join "\n") (take_rows-all (max_of_two 10 (length rows)) rows (ground arith))
