-- ===== src/SecurityManager/Patterns.antt =====
-- functions/security-manager.js: how the patterns of tokenizePII are matched on characters.
use Prim.Native.Char.{code}
use sentinel_engine_sovereig.Base.{
  ℕ, zero, suc, ◌-◌, String, Bool, true, false, Option, none, some, List, [], ◌∷◌, ◌++◌, length,
  leb, eqb, ◌&&◌, ◌||◌, if◌then◌else◌,
}
use sentinel_engine_sovereig.SecurityManager.Sealing.{drop}

abbrev pub Text : Type 0
Text = List ℕ

abbrev pub codes : String → Text
codes String.[] = []
codes (String.◌∷◌ c s) = code c ∷ codes s

-- \d
abbrev pub is_digit : ℕ → Bool
is_digit c = leb b'0' c && leb c b'9'

-- \s
abbrev pub is_space : ℕ → Bool
is_space c =
    (leb 9 c && leb c 13)
    || eqb c 32
    || eqb c 160
    || eqb c 5760
    || (leb 8192 c && leb c 8202)
    || eqb c 8232
    || eqb c 8233
    || eqb c 8239
    || eqb c 8287
    || eqb c 12288
    || eqb c 65279

abbrev pub is_alnum : ℕ → Bool
is_alnum c = is_digit c || (leb b'a' c && leb c b'z') || (leb b'A' c && leb c b'Z')

-- a character of an expression, or a run of characters
pub data Piece : Type 0 where
  one : (ℕ → Bool) → Piece
  any_number : (ℕ → Bool) → Piece
  at_least_one : (ℕ → Bool) → Piece

abbrev pub Shape : Type 0
Shape = List Piece

-- the longest run of a class at the front of a text, and what follows it
abbrev pub span : (ℕ → Bool) → Text → Text × Text
span class [] = ([], [])
span class (c ∷ rest) =
    let (run, end) = span class rest in if class c then (c ∷ run, end) else ([], c ∷ rest)

-- what a shape matches at the front of a text
unfoldable pub match_shape : Shape → Text → Option Text
match_shape [] text = some []
match_shape (one class ∷ shape) [] = none
match_shape (one class ∷ shape) (c ∷ text) = elim (class c) [
  | false ↦ none
  | true ↦ elim (match_shape shape text) [ none ↦ none | some m ↦ some (c ∷ m) ]
]
match_shape (any_number class ∷ shape) text = elim (match_shape shape (span class text).1) [
  | none ↦ none
  | some m ↦ some ((span class text).0 ++ m)
]
match_shape (at_least_one class ∷ shape) text = elim (span class text).0 [
  | [] ↦ none
  | c ∷ run ↦ elim (match_shape shape (span class text).1) [
    | none ↦ none
    | some m ↦ some (c ∷ run ++ m)
  ]
]

pub record Pattern : Type 0 where
  pub shape : Shape
  -- whether it stands between (?<!\d) and (?!\d)
  pub bounded : Bool

abbrev pub begins_with_digit : Text → Bool
begins_with_digit [] = false
begins_with_digit (c ∷ text) = is_digit c

-- the match of a pattern at a place, after what may be a digit
unfoldable pub match_at : Pattern → Bool → Text → Option Text
match_at pattern after_digit text = elim (match_shape pattern.shape text) [
  | none ↦ none
  | some m ↦
      if pattern.bounded && (after_digit || begins_with_digit (drop (length m) text))
      then none
      else some m
]

-- text.match(/.../g): the matches from left to right, each after the end of the one before. `skip`
-- counts what is left of the last match.
unfoldable pub matches : Pattern → Bool → ℕ → Text → List Text
matches pattern after_digit (suc skip) [] = []
matches pattern after_digit (suc skip) (c ∷ text) = matches pattern (is_digit c) skip text
matches pattern after_digit zero [] = []
matches pattern after_digit zero (c ∷ text) = elim (match_at pattern after_digit (c ∷ text)) [
  | none ↦ matches pattern (is_digit c) zero text
  | some m ↦ m ∷ matches pattern (is_digit c) (length m - 1) text
]

-- what is left of a text after a prefix
unfoldable pub strip : Text → Text → Option Text
strip [] text = some text
strip (p ∷ prefix) [] = none
strip (p ∷ prefix) (c ∷ text) = if eqb p c then strip prefix text else none
