-- ===== src/ContextPacker/Budget.antt =====
-- functions/adapters/context-packer.js: the length of what is packed and merged.
use Prim.Native.String.{count}
use text.Mathlib.TextLemmas.{length-append, length-cons, length-nil}
use sentinel_engine_sovereig.Base.{
  ℕ, suc, zero, String, true, false, some, List, [], ◌∷◌, ◌+◌, ◌-◌, ◌≤◌, ◌<◌, leb, ltb, take_text,
  ◌⧺◌, ◌==◌, eqb, if◌then◌else◌, ◌≡◌, refl, ◌⊎◌, inl, inr, subst, arith, Bool-cases,
}
use sentinel_engine_sovereig.ContextPacker.{
  max_context_bytes, Trim, join, warnings_block, final_warnings, cut_row, pack_rows, data_rows,
  packed_text, pack_external_context, protected_internal, separator, merge_context_safely,
}

count-take_text : (n : ℕ) (text : String) → count (take_text n text) ≤ n
unfolding take_text
count-take_text zero text = omega (arith, length-nil)
count-take_text (suc n) String.[] = omega (arith, length-nil)
count-take_text (suc n) (String.◌∷◌ c text) =
    omega (arith, length-cons c (take_text n text), count-take_text n text)

-- the bytes that the rows use, each with its newline
abbrev pub cost : List String → ℕ
cost [] = 0
cost (row ∷ rows) = count row + 1 + cost rows

count-join : (rows : List String) → count (join "\n" rows) ≤ cost rows - 1
unfolding join
count-join [] = omega (arith, length-nil)
count-join (row ∷ []) = omega arith
count-join (row ∷ next ∷ rows) = omega (
  arith,
  length-append row ("\n" ⧺ join "\n" (next ∷ rows)),
  length-append "\n" (join "\n" (next ∷ rows)),
  count-join (next ∷ rows),
)

cost-cut_row :
    (remaining : ℕ) (row : String)
    → (cost (cut_row remaining row) ≡ 0)
      ⊎ ((50 < remaining) × (cost (cut_row remaining row) ≤ remaining + 15))
cost-cut_row remaining row = elim (Bool-cases (ltb 50 remaining)) [
  | inr short ↦ inl (rw short refl)
  | inl fits ↦ inr (
    ground arith,
    rw fits (
        omega (
          arith,
          length-append (take_text remaining row) "...[TRUNCATED]",
          count-take_text remaining row,
        )),
  )
]

-- The packed rows use the budget that is left, and at most 14 more for the mark of a cut row.
cost-pack_rows :
    (budget packed used : ℕ) (rows : List String)
    → used ≤ budget
    → used + cost (pack_rows budget packed used rows) ≤ budget + 14
unfolding pack_rows
cost-pack_rows budget packed used [] h = omega arith
cost-pack_rows budget packed used (row ∷ rows) h =
    elim (Bool-cases (leb (used + (count row + 1)) budget)) [
      | inl fits ↦ rw fits (
          omega (
            arith,
            cost-pack_rows budget (suc packed) (used + (count row + 1)) rows (ground arith),
          ))
      | inr over ↦ rw over (go (Bool-cases (ltb packed 10)))
    ]
  where
    go :
        (ltb packed 10 ≡ true) ⊎ (ltb packed 10 ≡ false)
        → used + cost (if ltb packed 10 then cut_row (budget - used - 1) row else []) ≤ budget + 14
    go (inl few) = rw few (elim (cost-cut_row (budget - used - 1) row) [
      | inl nothing ↦ omega (arith, nothing)
      | inr (room, most) ↦ omega (arith, room, most)
    ])
    go (inr enough) = rw enough (omega arith)

count-final_warnings : (block : String) → count (final_warnings block) ≤ 4121
unfolding final_warnings
count-final_warnings block = elim (Bool-cases (ltb 4096 (count block))) [
  | inl long ↦ rw long (
      omega (
        arith,
        length-append (take_text 4096 block) "\n[...WARNINGS TRUNCATED]\n",
        count-take_text 4096 block,
      ))
  | inr short ↦ rw short (ground arith)
]

-- `trim` never adds to a text
abbrev pub Shortens : Trim → Type 0
Shortens trim = (text : String) → count (trim text) ≤ count text

packed_text-le :
    (trim : Trim) (warnings : String) (packed : List String) (text : String)
    → Shortens trim
    → packed_text trim warnings packed ≡ some text
    → count text ≤ count warnings + (cost packed - 1)
unfolding packed_text
packed_text-le trim warnings packed text s h =
    let made : trim (warnings ⧺ join "\n" packed) ≡ text = ground arith in
    let whole = s (warnings ⧺ join "\n" packed) in
    subst (λ t. count t ≤ count warnings + (cost packed - 1)) made
      (omega (arith, whole, length-append warnings (join "\n" packed), count-join packed))

-- What is packed for the model keeps to the limit of 16384 up to the mark of a row that was cut: it
-- is at most 13 longer, whatever was returned and whatever failed, where `trim` adds nothing.
pub pack_external_context-le :
    (trim : Trim) (successes failures : List String) (text : String)
    → Shortens trim
    → pack_external_context trim successes failures ≡ some text
    → count text ≤ max_context_bytes + 13
unfolding pack_external_context
pack_external_context-le trim successes failures text s h =
    let warnings = final_warnings (warnings_block failures) in
    let packed = pack_rows (max_context_bytes - count warnings) 0 0 (data_rows trim successes) in
    let made : packed_text trim warnings packed ≡ some text = ground arith in
    let short = packed_text-le trim warnings packed text s made in
    let used =
      cost-pack_rows (max_context_bytes - count warnings) 0 0 (data_rows trim successes)
        (omega arith) in
    omega (arith, short, used, count-final_warnings (warnings_block failures))

count-cut :
    (kept external : String) (total_budget : ℕ)
    → (count (kept ⧺ separator ⧺ take_text (total_budget - count kept - 30) external)
        ≤ total_budget)
      ⊎ (count (kept ⧺ separator ⧺ take_text (total_budget - count kept - 30) external)
          ≡ count kept + 30)
count-cut kept external total_budget =
    let cut = take_text (total_budget - count kept - 30) external in
    let whole = length-append kept (separator ⧺ cut) in
    let tail = length-append separator cut in
    let most = count-take_text (total_budget - count kept - 30) external in
    elim (Bool-cases (leb (count kept + 30) total_budget)) [
      | inl room ↦
          let fits : count kept + 30 ≤ total_budget = ground arith in
          inl (omega (arith, whole, tail, most, fits))
      | inr full ↦
          let over : total_budget < count kept + 30 = ground arith in
          inr (omega (arith, whole, tail, most, over))
    ]

-- A merge of two contexts, neither of them empty, keeps to its budget, or it is exactly as long as
-- the protected rows and the separator: these are never cut, whatever the budget is.
merge_context_safely-le :
    (trim : Trim) (internal external : String) (total_budget : ℕ)
    → (internal == "") ≡ false
    → (external == "") ≡ false
    → 0 < total_budget
    → (count (merge_context_safely trim (some internal) (some external) total_budget)
        ≤ total_budget)
      ⊎ (count (merge_context_safely trim (some internal) (some external) total_budget)
          ≡ count (protected_internal trim internal) + 30)
unfolding merge_context_safely
merge_context_safely-le trim internal external total_budget i e pos =
    elim (Bool-cases (leb (count (internal ⧺ separator ⧺ external)) total_budget)) [
      | inl fits ↦
          let positive : eqb total_budget 0 ≡ false = ground arith in
          rw (i, e) (rw positive (rw fits (inl (ground arith))))
      | inr over ↦
          let positive : eqb total_budget 0 ≡ false = ground arith in
          rw (i, e)
            (rw positive
              (rw over (count-cut (protected_internal trim internal) external total_budget)))
    ]
