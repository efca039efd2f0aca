-- ===== src/SecurityManager/Pii/Leaks.antt =====
-- functions/security-manager.js: a number that tokenizePII finds and leaves in the text.
use sentinel_engine_sovereig.Base.{
  ℕ, zero, suc, true, false, none, some, List, [], ◌∷◌, ◌++◌, length, All, if◌then◌else◌, ◌≡◌, refl,
  ap, ◌∙◌, arith,
}
use sentinel_engine_sovereig.SecurityManager.Sealing.{drop}
use sentinel_engine_sovereig.SecurityManager.Pii.{digits, ssn_plain, replace_matches, pass}
use sentinel_engine_sovereig.SecurityManager.Patterns.{
  Text, is_digit, begins_with_digit, match_shape, match_at, matches,
}
use sentinel_engine_sovereig.SecurityManager.Pii.Passes.{
  BeginsWithDigit, NoDigits, matches-NoDigits, matches-front, matches-no_digit, matches-some,
  replace_first-front,
}

abbrev pub Digits : Text → Type 0
Digits text = All (λ c. is_digit c ≡ true) text

match_shape-digits :
    (n : ℕ) (number back : Text)
    → length number ≡ n
    → Digits number
    → match_shape (digits n []) (number ++ back) ≡ some number
unfolding match_shape
match_shape-digits zero [] back e h = refl
match_shape-digits zero (c ∷ number) back e h = absurd (omega (arith, e))
match_shape-digits (suc n) [] back e h = absurd (omega (arith, e))
match_shape-digits (suc n) (c ∷ number) back e (first, rest) =
    ground (arith, first, match_shape-digits n number back (omega (arith, e)) rest)

drop-length : (number back : Text) → drop (length number) (number ++ back) ≡ back
drop-length [] back = refl
drop-length (c ∷ number) back = drop-length number back

-- what stands at a place after a digit is no match
match_at-after_digit : (text : Text) → match_at ssn_plain true text ≡ none
unfolding match_at
match_at-after_digit text = ground arith

match_at-plain :
    (number back : Text)
    → length number ≡ 9
    → Digits number
    → match_at ssn_plain false (number ++ back)
      ≡ (if begins_with_digit back then none else some number)
unfolding match_at
match_at-plain number back nine h =
    ground (arith, match_shape-digits 9 number back nine h, drop-length number back)

matches-after_digit :
    (number text : Text)
    → Digits number
    → matches ssn_plain true zero (number ++ text) ≡ matches ssn_plain true zero text
unfolding matches
matches-after_digit [] text h = refl
matches-after_digit (c ∷ number) text (first, rest) =
    ground (
      arith,
      match_at-after_digit (c ∷ number ++ text),
      first,
      matches-after_digit number text rest,
    )

-- a first digit that begins no match
matches-none :
    (d : ℕ) (text : Text)
    → is_digit d ≡ true
    → match_at ssn_plain false (d ∷ text) ≡ none
    → matches ssn_plain false zero (d ∷ text) ≡ matches ssn_plain true zero text
unfolding matches
matches-none d text digit h = ground (arith, digit, h)

no_digit-first : (back : Text) → NoDigits back → begins_with_digit back ≡ false
no_digit-first [] h = refl
no_digit-first (c ∷ back) (first, rest) = first

-- A number that is found may stay. The text holds two runs of digits: one of more than nine digits, and
-- after it one of exactly nine, which are the first nine of the longer one. The pass finds the number
-- and replaces the front of the longer run, which it should leave; the number stays readable, whatever
-- the token is.
pub plain_number_leaks :
    (token : Text → Text) (before : Text) (d : ℕ) (m : Text) (e : ℕ) (es : Text) (gap : ℕ)
    (between back : Text)
    → length (d ∷ m) ≡ 9
    → Digits (d ∷ m)
    → Digits (e ∷ es)
    → NoDigits before
    → NoDigits (gap ∷ between)
    → NoDigits back
    → pass ssn_plain token (before ++ (d ∷ m ++ (e ∷ es ++ (gap ∷ between ++ (d ∷ m ++ back)))))
      ≡ before ++ (token (d ∷ m) ++ (e ∷ es ++ (gap ∷ between ++ (d ∷ m ++ back))))
unfolding pass replace_matches
plain_number_leaks token before d m e es gap between back nine (digit, rest) (more, longer) clear
      (apart, far) end =
    let begins : BeginsWithDigit ssn_plain = (digits 8 [], refl) in
    let number = d ∷ m ++ back in
    let after = e ∷ es ++ (gap ∷ between ++ number) in
    let unmatched : match_at ssn_plain false (d ∷ m ++ after) ≡ none =
      match_at-plain (d ∷ m) after nine (digit, rest) ∙ rw more refl in
    let matched : match_at ssn_plain false number ≡ some (d ∷ m) =
      match_at-plain (d ∷ m) back nine (digit, rest) ∙ rw (no_digit-first back end) refl in
    let (last, found) = matches-some ssn_plain false d m back matched in
    let only : matches ssn_plain false zero (before ++ (d ∷ m ++ after)) ≡ (d ∷ m) ∷ [] =
      matches-front ssn_plain before (d ∷ m ++ after) begins clear
      ∙ matches-none d (m ++ after) digit unmatched
      ∙ matches-after_digit m after rest
      ∙ matches-after_digit (e ∷ es) (gap ∷ between ++ number) (more, longer)
      ∙ matches-no_digit ssn_plain true gap (between ++ number) begins apart
      ∙ matches-front ssn_plain between number begins far
      ∙ found
      ∙ ap (λ (l : List Text). (d ∷ m) ∷ l) (matches-NoDigits ssn_plain last back begins end) in
    rw only (replace_first-front d m (token (d ∷ m)) before after digit clear)
