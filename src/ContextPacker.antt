-- ===== src/ContextPacker.antt =====
-- functions/adapters/context-packer.js: the packing of external rows under a budget, and the merge
-- with the internal context. A character stands for one UTF-16 unit, which is what the source
-- counts. `trim` is that of the runtime.
pub mod Budget
pub mod Rows
use Prim.Native.String
use sentinel_engine_sovereig.Base.{
  ℕ, suc, zero, String, Bool, true, false, Option, none, some, List, [], ◌∷◌, map, filter, length,
  not, ◌&&◌, ◌+◌, ◌-◌, ◌*◌, ◌⧺◌, leb, ltb, eqb, truthy, or_text, take_text, ◌==◌, if◌then◌else◌,
}

abbrev pub max_context_bytes : ℕ
max_context_bytes = 16384

abbrev pub min_protected_rows : ℕ
min_protected_rows = 10

abbrev pub Trim : Type 0
Trim = String → String

-- rows.join(separator)
unfoldable pub join : String → List String → String
join separator [] = ""
join separator (row ∷ []) = row
join separator (row ∷ next ∷ rows) = row ⧺ separator ⧺ join separator (next ∷ rows)

abbrev warning_line : String → String
warning_line plugin = "[WARNING: External Data Authority (" ⧺ plugin ⧺ ") Unavailable]"

-- the plugins that failed
unfoldable pub warnings_block : List String → String
unfolding join
warnings_block [] = ""
warnings_block (plugin ∷ plugins) = join "\n" (map warning_line (plugin ∷ plugins)) ⧺ "\n"

-- warnings of more than a quarter of the budget are cut
unfoldable pub final_warnings : String → String
final_warnings block =
    if ltb 4096 (String.count block)
    then take_text 4096 block ⧺ "\n[...WARNINGS TRUNCATED]\n"
    else block

abbrev pub is_long : String → Bool
is_long text = ltb 0 (String.count text)

-- the data of the plugins that succeeded, trimmed
abbrev pub data_rows : Trim → List String → List String
data_rows trim results = filter is_long (map trim results)

-- the row that does not fit, cut to what is left
abbrev pub cut_row : ℕ → String → List String
cut_row remaining row =
    if ltb 50 remaining then (take_text remaining row ⧺ "...[TRUNCATED]") ∷ [] else []

-- The loop over the rows, with the number packed and the bytes used; the packed rows.
unfoldable pub pack_rows : ℕ → ℕ → ℕ → List String → List String
pack_rows budget packed used [] = []
pack_rows budget packed used (row ∷ rows) =
    let rest = pack_rows budget (suc packed) (used + (String.count row + 1)) rows in
    if leb (used + (String.count row + 1)) budget
    then row ∷ rest
    else if ltb packed min_protected_rows
    then cut_row (budget - used - 1) row
    else []

abbrev is_empty : List String → Bool
is_empty [] = true
is_empty (_ ∷ _) = false

unfoldable pub packed_text : Trim → String → List String → Option String
packed_text trim warnings packed =
    if is_empty packed && not (is_long warnings)
    then none
    else some (trim (warnings ⧺ join "\n" packed))

-- packExternalContext, on the data of the successes and the plugins of the failures
unfoldable pub pack_external_context : Trim → List String → List String → Option String
unfolding pack_rows packed_text final_warnings warnings_block
pack_external_context trim successes failures =
    if is_empty successes && is_empty failures
    then none
    else if is_empty (data_rows trim successes) && not (is_long (warnings_block failures))
    then none
    else let warnings = final_warnings (warnings_block failures) in
      packed_text trim warnings
        (pack_rows (max_context_bytes - String.count warnings) 0 0 (data_rows trim successes))

-- text.split('\n'), with the line that is read so far
unfoldable pub split_from : String → String → List String
split_from line String.[] = line ∷ []
split_from line (String.◌∷◌ c text) =
    let next = split_from "" text in
    let more = split_from (line ⧺ String.◌∷◌ c "") text in
    if String.◌∷◌ c "" == "\n" then line ∷ next else more

unfoldable pub internal_rows : Trim → String → List String
unfolding split_from
internal_rows trim text = filter (λ r. is_long (trim r)) (split_from "" text)

-- rows.slice(0, n)
unfoldable pub take_rows : ℕ → List String → List String
take_rows n [] = []
take_rows zero (row ∷ rows) = []
take_rows (suc n) (row ∷ rows) = row ∷ take_rows n rows

abbrev pub max_of_two : ℕ → ℕ → ℕ
max_of_two a b = if leb a b then b else a

unfoldable pub protected_internal : Trim → String → String
unfolding take_rows internal_rows
protected_internal trim internal =
    let rows = internal_rows trim internal in
    join "\n" (take_rows (max_of_two min_protected_rows (length rows)) rows)

abbrev pub separator : String
separator = "\n\n── External Intelligence ──\n"

-- mergeContextSafely
unfoldable pub merge_context_safely : Trim → Option String → Option String → ℕ → String
unfolding protected_internal
merge_context_safely trim internal external total_budget =
    if not (truthy external)
    then or_text internal ""
    else if not (truthy internal)
    then or_text external ""
    else let merged = or_text internal "" ⧺ separator ⧺ or_text external "" in
      if eqb total_budget 0
      then merged
      else if leb (String.count merged) total_budget
      then merged
      else let kept = protected_internal trim (or_text internal "") in
        kept ⧺ separator ⧺ take_text (total_budget - String.count kept - 30) (or_text external "")
