-- ===== src/SecurityManager/Pii/Passes.antt =====
-- functions/security-manager.js: one pass of tokenizePII over a text that holds one number.
use sentinel_engine_sovereig.Base.{
  ℕ, zero, Bool, true, false, none, some, List, [], ◌∷◌, ◌++◌, length, All, eqb, ◌≡◌, refl, ap, ◌∙◌,
  arith,
}
use sentinel_engine_sovereig.SecurityManager.Pii.{replace_first, replace_matches, pass}
use sentinel_engine_sovereig.SecurityManager.Patterns.{
  Text, Shape, one, Pattern, is_digit, match_shape, match_at, matches, strip,
}

abbrev pub NoDigits : Text → Type 0
NoDigits text = All (λ c. is_digit c ≡ false) text

-- the patterns of numbers begin with a digit
abbrev pub BeginsWithDigit : Pattern → Type 0
BeginsWithDigit pattern = (rest : Shape) × (pattern.shape ≡ one is_digit ∷ rest)

match_shape-no_digit :
    (rest : Shape) (c : ℕ) (text : Text)
    → is_digit c ≡ false
    → match_shape (one is_digit ∷ rest) (c ∷ text) ≡ none
unfolding match_shape
match_shape-no_digit rest c text h = ground (arith, h)

match_at-no_digit :
    (pattern : Pattern) (after : Bool) (c : ℕ) (text : Text)
    → BeginsWithDigit pattern
    → is_digit c ≡ false
    → match_at pattern after (c ∷ text) ≡ none
unfolding match_at
match_at-no_digit pattern after c text (rest, begins) h =
    let unmatched : match_shape pattern.shape (c ∷ text) ≡ none =
      ap (λ (shape : Shape). match_shape shape (c ∷ text)) begins
      ∙ match_shape-no_digit rest c text h in
    ground (arith, unmatched)

pub matches-no_digit :
    (pattern : Pattern) (after : Bool) (c : ℕ) (text : Text)
    → BeginsWithDigit pattern
    → is_digit c ≡ false
    → matches pattern after zero (c ∷ text) ≡ matches pattern false zero text
unfolding matches
matches-no_digit pattern after c text begins h =
    ground (arith, match_at-no_digit pattern after c text begins h)

pub matches-NoDigits :
    (pattern : Pattern) (after : Bool) (back : Text)
    → BeginsWithDigit pattern
    → NoDigits back
    → matches pattern after zero back ≡ []
unfolding matches
matches-NoDigits pattern after [] begins h = refl
matches-NoDigits pattern after (c ∷ back) begins (first, rest) =
    matches-no_digit pattern after c back begins first
    ∙ matches-NoDigits pattern false back begins rest

pub matches-front :
    (pattern : Pattern) (front text : Text)
    → BeginsWithDigit pattern
    → NoDigits front
    → matches pattern false zero (front ++ text) ≡ matches pattern false zero text
matches-front pattern [] text begins h = refl
matches-front pattern (c ∷ front) text begins (first, rest) =
    matches-no_digit pattern false c (front ++ text) begins first
    ∙ matches-front pattern front text begins rest

-- the characters of a match are passed over
matches-skip :
    (pattern : Pattern) (after : Bool) (m back : Text)
    → (last : Bool) × (matches pattern after (length m) (m ++ back)
        ≡ matches pattern last zero back)
unfolding matches
matches-skip pattern after [] back = (after, refl)
matches-skip pattern after (c ∷ m) back = matches-skip pattern (is_digit c) m back

pub matches-some :
    (pattern : Pattern) (after : Bool) (d : ℕ) (m back : Text)
    → match_at pattern after (d ∷ m ++ back) ≡ some (d ∷ m)
    → (last : Bool) × (matches pattern after zero (d ∷ m ++ back)
        ≡ (d ∷ m) ∷ matches pattern last zero back)
unfolding matches
matches-some pattern after d m back h =
    let (last, skipped) = matches-skip pattern (is_digit d) m back in
    (last, ground (arith, h, skipped))

strip-append : (m back : Text) → strip m (m ++ back) ≡ some back
unfolding strip
strip-append [] back = refl
strip-append (c ∷ m) back = ground (arith, strip-append m back)

digit-ne : (d c : ℕ) → is_digit d ≡ true → is_digit c ≡ false → eqb d c ≡ false
digit-ne d c digit other = ground (arith, digit, other)

pub replace_first-front :
    (d : ℕ) (m new front back : Text)
    → is_digit d ≡ true
    → NoDigits front
    → replace_first (d ∷ m) new (front ++ (d ∷ m ++ back)) ≡ front ++ (new ++ back)
unfolding replace_first strip
replace_first-front d m new [] back digit h = ground (arith, strip-append m back)
replace_first-front d m new (c ∷ front) back digit (first, rest) =
    ground (arith, digit-ne d c digit first, replace_first-front d m new front back digit rest)

-- One pass over a text with a single number: where the pattern, which begins with a digit, matches at
-- the place of the number and there is no digit before or after it, exactly the number is replaced
-- by its token, and the text around it stays.
pub pass-single :
    (pattern : Pattern) (token : Text → Text) (front : Text) (d : ℕ) (m back : Text)
    → BeginsWithDigit pattern
    → NoDigits front
    → is_digit d ≡ true
    → NoDigits back
    → match_at pattern false (d ∷ m ++ back) ≡ some (d ∷ m)
    → pass pattern token (front ++ (d ∷ m ++ back)) ≡ front ++ (token (d ∷ m) ++ back)
unfolding pass replace_matches
pass-single pattern token front d m back begins clear digit clear' h =
    let (last, found) = matches-some pattern false d m back h in
    let only : matches pattern false zero (front ++ (d ∷ m ++ back)) ≡ (d ∷ m) ∷ [] =
      matches-front pattern front (d ∷ m ++ back) begins clear
      ∙ found
      ∙ ap (λ (l : List Text). (d ∷ m) ∷ l) (matches-NoDigits pattern last back begins clear') in
    rw only (replace_first-front d m (token (d ∷ m)) front back digit clear)
