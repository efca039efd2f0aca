-- ===== src/Dll.antt =====
-- functions/dll.js: the rules that override the model. toLowerCase is a parameter. A margin is kept as
-- the digits that were written: a number of units and how many digits follow the point.
pub mod Margins
use sentinel_engine_sovereig.Base.{
  ℕ, zero, suc, ◌+◌, ◌-◌, ◌*◌, ◌^◌, Bool, true, false, Option, none, some, List, [], ◌∷◌, ◌++◌,
  length, ltb, eqb, ◌&&◌, if◌then◌else◌, map,
}
use sentinel_engine_sovereig.SecurityManager.Patterns.{Text, codes, is_digit, is_space, span, strip}
use sentinel_engine_sovereig.IntegrityController.{contains}

pub record Decimal : Type 0 where
  pub units : ℕ
  pub places : ℕ

-- a < b
abbrev pub is_below : Decimal → Decimal → Bool
is_below a b = ltb (a.units * 10 ^ b.places) (b.units * 10 ^ a.places)

abbrev pub one_decimal : Decimal
one_decimal = record { units = 1; places = 0 }

-- 0.05
abbrev pub safety_threshold : Decimal
safety_threshold = record { units = 5; places = 2 }

-- the value of digits
abbrev number_of : ℕ → Text → ℕ
number_of acc [] = acc
number_of acc (c ∷ rest) = number_of (acc * 10 + (c - b'0')) rest

-- the value of digits before and after a point, and how many characters were read
decimal : Text → Text → ℕ → Decimal × ℕ
decimal whole fraction read =
    (record { units = number_of (number_of 0 whole) fraction; places = length fraction }, read)

after_point : Text → Text → Option (Decimal × ℕ)
after_point whole rest = elim (span is_digit rest).0 [
  | [] ↦ elim whole [ [] ↦ none | d ∷ ds ↦ some (decimal (d ∷ ds) [] (suc (length ds))) ]
  | c ∷ run ↦ some (decimal whole (c ∷ run) (length whole + suc (suc (length run))))
]

-- \d*\.?\d+ at the front of a text: digits with a point and digits after it, or else the digits
-- alone
read_decimal : Text → Option (Decimal × ℕ)
unfolding after_point decimal
read_decimal text = elim (span is_digit text).1 [
  | [] ↦ elim (span is_digit text).0 [
    | [] ↦ none
    | d ∷ ds ↦ some (decimal (d ∷ ds) [] (suc (length ds)))
  ]
  | c ∷ rest ↦
      if eqb c b'.' then after_point (span is_digit text).0 rest else elim (span is_digit text).0 [
        | [] ↦ none
        | d ∷ ds ↦ some (decimal (d ∷ ds) [] (suc (length ds)))
      ]
]

-- "margin":\s*(\d*\.?\d+) at the front of a text: the value, and the length of the match
unfoldable pub match_margin : Text → Option (Decimal × ℕ)
unfolding read_decimal
match_margin text = elim (strip (codes "\"margin\":") text) [
  | none ↦ none
  | some rest ↦ elim (read_decimal (span is_space rest).1) [
    | none ↦ none
    | some (value, read) ↦ some (value, 9 + length (span is_space rest).0 + read)
  ]
]

-- context.match(/.../g), with the values of parseFloat as exact decimals; `skip` counts what is left of
-- the last match. A margin with a minus sign is not matched.
unfoldable pub margins : ℕ → Text → List Decimal
margins (suc skip) [] = []
margins (suc skip) (c ∷ text) = margins skip text
margins zero [] = []
margins zero (c ∷ text) = elim (match_margin (c ∷ text)) [
  | none ↦ margins zero text
  | some (value, read) ↦ value ∷ margins (read - 1) text
]

-- Math.min(first, ...rest)
unfoldable pub least : Decimal → List Decimal → Decimal
least first [] = first
least first (value ∷ rest) = least (if is_below value first then value else first) rest

least_of : List Decimal → Decimal
least_of [] = one_decimal
least_of (value ∷ rest) = least value rest

unfoldable pub extract_min_margin : Text → Decimal
unfolding least_of margins
extract_min_margin context = least_of (margins zero context)

-- which rule overrides the model; the texts of the answers follow from it
pub data Override : Type 0 where
  vessel_risk : Override
  margin_gate : Decimal → Override

unfoldable pub dll_interceptor : (Text → Text) → Text → Text → Option Override
unfolding extract_min_margin
dll_interceptor lower query context =
    if contains (codes "sea") (lower query)
      && contains (codes "\"vessel_risk\":\"high\"") (lower context)
    then some vessel_risk
    else if contains (codes "\"margin\"") (lower context)
        && is_below (extract_min_margin context) safety_threshold
    then some (margin_gate (extract_min_margin context))
    else none
