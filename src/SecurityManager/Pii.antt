-- ===== src/SecurityManager/Pii.antt =====
-- functions/security-manager.js: tokenizePII, with the matching of its regular expressions. A text is
-- the list of its characters' codes. The keyed hash of the runtime is a parameter.
--
-- In each expression what follows a repeated class cannot begin with a character of the class, and
-- the literals do not overlap what they follow; so taking as many characters as possible and going on
-- finds what the engine of the language finds by trying fewer.
pub mod Passes
pub mod Leaks
use Prim.Native.Char.{code}
use sentinel_engine_sovereig.Base.{
  ℕ, zero, suc, ◌+◌, ◌-◌, String, Bool, true, false, Option, none, some, List, [], ◌∷◌, ◌++◌,
  length, any, ltb, leb, eqb, not, ◌&&◌, ◌||◌, truthy, or_text, if◌then◌else◌,
}
use sentinel_engine_sovereig.SecurityManager.Sealing.{take, drop}
use sentinel_engine_sovereig.SecurityManager.Patterns.{
  Text, codes, is_digit, is_space, is_alnum, Piece, Shape, span, match_shape, Pattern,
  begins_with_digit, match_at, matches, strip, any_number, at_least_one, one,
}

-- text.replace(old, new): the first place only
unfoldable pub replace_first : Text → Text → Text → Text
replace_first old new [] = []
replace_first old new (c ∷ text) = elim (strip old (c ∷ text)) [
  | some rest ↦ new ++ rest
  | none ↦ c ∷ replace_first old new text
]

-- the loop over the matches of a pattern; the replacement depends on the match
unfoldable pub replace_matches : (Text → Text) → List Text → Text → Text
replace_matches token [] text = text
replace_matches token (m ∷ ms) text = replace_matches token ms (replace_first m (token m) text)

unfoldable pub pass : Pattern → (Text → Text) → Text → Text
unfolding matches replace_matches replace_first match_at match_shape strip
pass pattern token text = replace_matches token (matches pattern false zero text) text

abbrev digits : ℕ → Shape → Shape
digits zero shape = shape
digits (suc n) shape = one is_digit ∷ digits n shape

abbrev letter : ℕ → Shape → Shape
letter c shape = one (eqb c) ∷ shape

abbrev space : Shape → Shape
space shape = one is_space ∷ shape

-- the digits of an SSN with a separator
abbrev ssn_shape : (Shape → Shape) → Shape
ssn_shape separator = digits 3 (separator (digits 2 (separator (digits 4 []))))

abbrev card_shape : (Shape → Shape) → Shape
card_shape separator =
    digits 4 (separator (digits 4 (separator (digits 4 (separator (digits 4 []))))))

abbrev pub ssn_plain : Pattern
ssn_plain = record { shape = digits 9 []; bounded = true }

abbrev pub card_plain : Pattern
card_plain = record { shape = digits 16 []; bounded = true }

abbrev free : Shape → Pattern
free shape = record { shape = shape; bounded = false }

abbrev pub ssn_dashes : Pattern
ssn_dashes = free (ssn_shape (letter b'-'))

abbrev pub ssn_patterns : List Pattern
ssn_patterns = ssn_dashes ∷ free (ssn_shape space) ∷ free (ssn_shape (letter b'.')) ∷ ssn_plain ∷ []

abbrev pub card_patterns : List Pattern
card_patterns = free (card_shape (letter b'-')) ∷ free (card_shape space) ∷ card_plain ∷ []

-- the pieces of a literal
abbrev literal : (ℕ → ℕ → Bool) → Text → Shape → Shape
literal same [] shape = shape
literal same (c ∷ text) shape = one (same c) ∷ literal same text shape

-- a letter of the expression in either case, under the flag i
abbrev same_letter : ℕ → ℕ → Bool
same_letter p c = eqb p c || (leb b'a' p && leb p b'z' && eqb (p - 32) c)

-- /patient_id:\s*([a-zA-Z0-9]+)/gi
abbrev patient_id : Pattern
patient_id =
    free
      (literal same_letter (codes "patient_id:") (any_number is_space ∷ at_least_one is_alnum ∷ []))

abbrev not_quote : ℕ → Bool
not_quote c = not (eqb b'"' c)

-- /"subject_id":\s*"([^"]+)"/g
abbrev subject_id : Pattern
subject_id = free (
    literal eqb (codes "\"subject_id\":")
      (any_number is_space ∷ one (eqb b'"') ∷ at_least_one not_quote ∷ one (eqb b'"') ∷ []))

-- the group of a match of patient_id: what follows the literal of 11 characters and the spaces
unfoldable pub patient_value : Text → Text
patient_value m = (span is_space (drop 11 m)).1

-- the group of a match of subject_id, between the quotes
unfoldable pub subject_value : Text → Text
subject_value m = (span not_quote (drop 1 (span is_space (drop 13 m)).1)).0

-- value.replace(/[\s\-\.]/g, ''); the trim that follows finds no more spaces
unfoldable pub normalize : Text → Text
normalize [] = []
normalize (c ∷ text) =
    let rest = normalize text in if is_space c || eqb c b'-' || eqb c b'.' then rest else c ∷ rest

-- the hash of a value under the key that HKDF derives from the pepper and the tenant, in hex
abbrev pub Digest : Type 0
Digest = String → String → Text → Text

-- hmacHash
unfoldable pub hmac_hash : (Text → Text) → Text → Text → Text
hmac_hash digest type value =
    codes "[HASHED_" ++ (type ++ (codes ":" ++ (take 12 (digest (normalize value)) ++ codes "]")))

patient_token : (Text → Text) → Text → Text
patient_token digest m = codes "patient_id: " ++ hmac_hash digest (codes "ID") (patient_value m)

subject_token : (Text → Text) → Text → Text
subject_token digest m =
    codes "\"subject_id\": \"" ++ (hmac_hash digest (codes "ID") (subject_value m) ++ codes "\"")

-- the loops over the patterns
unfoldable pub pass_each : List Pattern → (Text → Text) → Text → Text
unfolding pass
pass_each [] token text = text
pass_each (pattern ∷ patterns) token text = pass_each patterns token (pass pattern token text)

unfoldable pub tokenize_text : (Text → Text) → Text → Text
unfolding pass_each hmac_hash normalize patient_token subject_token patient_value subject_value
tokenize_text digest text = pass subject_id (subject_token digest) (
    pass patient_id (patient_token digest) (
      pass_each card_patterns (hmac_hash digest (codes "CC"))
        (pass_each ssn_patterns (hmac_hash digest (codes "SSN")) text)))

-- getHardenedPepper: the cache, and then the reply of Secret Manager or else the environment
unfoldable pub get_hardened_pepper :
    Option String → Option String → Option String → Option String × Option String
get_hardened_pepper cache reply environment =
    if truthy cache
    then (cache, cache)
    else elim reply [ some pepper ↦ (some pepper, some pepper) | none ↦ (cache, environment) ]

-- tokenizePII: the cache of the pepper and the text
unfoldable pub tokenize_pii :
    Digest
    → Option String
    → Option String
    → Option String
    → Option String
    → Text
    → Option String × Text
unfolding get_hardened_pepper tokenize_text
tokenize_pii digest reply environment tenant cache [] = (cache, [])
tokenize_pii digest reply environment tenant cache (c ∷ text) =
    let (cache', pepper) = get_hardened_pepper cache reply environment in
    (cache', tokenize_text (digest (or_text pepper "") (or_text tenant "global")) (c ∷ text))
