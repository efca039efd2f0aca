-- ===== src/Dll/Margins.antt =====
-- functions/dll.js: the smallest margin, and when the rule on margins overrides the model.
use native.Mathlib.Nat.{
  mul-le-mul_right, mul-lt-mul_of_pos_right, lt_of_mul-lt-mul_right, pow-zero, pow-suc,
}
use sentinel_engine_sovereig.Base.{
  ℕ, zero, suc, ◌*◌, ◌^◌, ◌≤◌, ◌<◌, Bool, true, false, none, some, List, [], ◌∷◌, any, ltb→lt,
  lt→ltb, ◌||◌, ◌&&◌, if◌then◌else◌, Bool-cases, inl, inr, ◌≡◌, refl, ap, ◌∙◌, arith,
}
use sentinel_engine_sovereig.SecurityManager.Patterns.{Text, codes}
use sentinel_engine_sovereig.IntegrityController.{contains}
use sentinel_engine_sovereig.Dll.{
  Decimal, is_below, safety_threshold, margins, least, least_of, extract_min_margin, margin_gate,
  dll_interceptor,
}

scaled_lt : (a b t p q r : ℕ) → a * q ≤ b * p → b * r < t * q → 0 < p → a * r < t * p
scaled_lt a b t p q r h k positive = lt_of_mul-lt-mul_right q (
    grind (
      arith,
      mul-le-mul_right {m = a * q} {n = b * p} r h,
      mul-lt-mul_of_pos_right {m = b * r} {n = t * q} {k = p} k positive,
    ))

ten_pow_pos : (n : ℕ) → 0 < 10 ^ n
ten_pow_pos zero = rw (pow-zero 10) (omega arith)
ten_pow_pos (suc n) = rw (pow-suc 10 n) (omega (arith, ten_pow_pos n))

-- b is below the limit and a is no larger than b
is_below_trans :
    (a b limit : Decimal) → is_below b a ≡ false → is_below b limit ≡ true → is_below a limit ≡ true
is_below_trans a b limit h k = lt→ltb (a.units * 10 ^ limit.places) (limit.units * 10 ^ a.places) (
    scaled_lt a.units b.units limit.units (10 ^ a.places) (10 ^ b.places) (10 ^ limit.places)
      (ground (arith, h)) (ltb→lt (b.units * 10 ^ limit.places) (limit.units * 10 ^ b.places) k)
      (ten_pow_pos a.places))

is_below_asym : (a b : Decimal) → is_below a b ≡ true → is_below b a ≡ false
is_below_asym a b h = ground (arith, h)

-- the smaller of two is below a limit exactly when one of them is
is_below-smaller :
    (a b limit : Decimal)
    → is_below (if is_below b a then b else a) limit ≡ is_below a limit || is_below b limit
is_below-smaller a b limit = elim (Bool-cases (is_below b a)) [
  | inl smaller ↦ rw smaller (elim (Bool-cases (is_below a limit)) [
    | inl under ↦ rw (under, is_below_trans b a limit (is_below_asym b a smaller) under) refl
    | inr over ↦ rw over refl
  ])
  | inr larger ↦ rw larger (elim (Bool-cases (is_below b limit)) [
    | inl under ↦ rw (under, is_below_trans a b limit larger under) refl
    | inr over ↦ rw over (or_false (is_below a limit))
  ])
]
  where
    or_false : (t : Bool) → t ≡ t || false
    or_false true = refl
    or_false false = refl

is_below-least :
    (limit first : Decimal) (rest : List Decimal)
    → is_below (least first rest) limit ≡ is_below first limit || any (λ v. is_below v limit) rest
unfolding least
is_below-least limit first [] = or_false (is_below first limit)
  where
    or_false : (t : Bool) → t ≡ t || false
    or_false true = refl
    or_false false = refl
is_below-least limit first (value ∷ rest) =
    is_below-least limit (if is_below value first then value else first) rest
    ∙ ap (λ (t : Bool). t || any (λ v. is_below v limit) rest) (is_below-smaller first value limit)
    ∙ or_assoc (is_below first limit) (is_below value limit) (any (λ v. is_below v limit) rest)
  where
    or_assoc : (a b c : Bool) → (a || b) || c ≡ a || (b || c)
    or_assoc true b c = refl
    or_assoc false b c = refl

min_margin-below :
    (context : Text)
    → is_below (extract_min_margin context) safety_threshold
      ≡ any (λ v. is_below v safety_threshold) (margins 0 context)
unfolding extract_min_margin least_of
min_margin-below context = go (margins 0 context)
  where
    go :
        (found : List Decimal)
        → is_below (least_of found) safety_threshold ≡ any (λ v. is_below v safety_threshold) found
    go [] = refl
    go (value ∷ rest) = is_below-least safety_threshold value rest

-- Where the rule on vessels does not apply, the model is overridden by the rule on margins exactly
-- when the context in lower case names a margin and one of the values that the pattern matches is
-- below 5%; otherwise the model is asked. The pattern matches no negative value.
margin_gate_iff :
    (lower : Text → Text) (query context : Text)
    → contains (codes "sea") (lower query)
        && contains (codes "\"vessel_risk\":\"high\"") (lower context)
      ≡ false
    → dll_interceptor lower query context ≡ (
        if contains (codes "\"margin\"") (lower context)
          && any (λ v. is_below v safety_threshold) (margins 0 context)
        then some (margin_gate (extract_min_margin context))
        else none)
unfolding dll_interceptor
margin_gate_iff lower query context calm =
    rw (← min_margin-below context) (rw (calm, dll_interceptor) refl)
