-- ===== src/Base/Membership.antt =====
-- Members of lists, of filtered lists, and predicates on all members.
use mathlib.Core.Path.{◌≡◌, sym, subst}
use mathlib.Core.Logic.{inl, inr}
use mathlib.Core.Bool.{Bool, true, false}
use mathlib.Core.List.{List, [], ◌∷◌, Memᴰ}
use native.Mathlib.Omega.{arith}
use sentinel_engine_sovereig.Base.Tests.{Bool-cases}
use sentinel_engine_sovereig.Base.Lists.{All, filter}

module _ {ℓ} {A : Type ℓ} where
  pub All-mem {κ} : (P : A → Type κ) (xs : List A) (x : A) → All P xs → Memᴰ x xs → P x
  All-mem P [] x h m = elim m [ ]
  All-mem P (y ∷ ys) x h (Memᴰ.head e) = subst P (sym e) h.0
  All-mem P (y ∷ ys) x h (Memᴰ.tail m) = All-mem P ys x h.1 m

  pub filter-cons_true :
      (p : A → Bool) (x : A) (xs : List A) → p x ≡ true → filter p (x ∷ xs) ≡ x ∷ filter p xs
  filter-cons_true p x xs h = ground arith

  pub filter-cons_false :
      (p : A → Bool) (x : A) (xs : List A) → p x ≡ false → filter p (x ∷ xs) ≡ filter p xs
  filter-cons_false p x xs h = ground arith

module _ {ℓ} {A : Type ℓ} where
  pub mem-filter_of :
      (p : A → Bool) (xs : List A) (x : A) → Memᴰ x xs → p x ≡ true → Memᴰ x (filter p xs)
  mem-filter_of p [] x m h = elim m [ ]
  mem-filter_of p (y ∷ ys) x (Memᴰ.head e) h =
      rw (filter-cons_true p y ys (subst (λ z. p z ≡ true) e h)) (Memᴰ.head e)
  mem-filter_of p (y ∷ ys) x (Memᴰ.tail m) h = elim (Bool-cases (p y)) [
    | inl t ↦ rw (filter-cons_true p y ys t) (Memᴰ.tail (mem-filter_of p ys x m h))
    | inr f ↦ rw (filter-cons_false p y ys f) (mem-filter_of p ys x m h)
  ]

  pub All-filter : (p : A → Bool) (xs : List A) → All (λ x. p x ≡ true) (filter p xs)
  All-filter p [] = tt
  All-filter p (x ∷ xs) = elim (Bool-cases (p x)) [
    | inl t ↦ rw (filter-cons_true p x xs t) (t, All-filter p xs)
    | inr f ↦ rw (filter-cons_false p x xs f) (All-filter p xs)
  ]

  pub mem-of_filter : (p : A → Bool) (xs : List A) (x : A) → Memᴰ x (filter p xs) → Memᴰ x xs
  mem-of_filter p [] x m = m
  mem-of_filter p (y ∷ ys) x m = elim (Bool-cases (p y)) [
    | inl t ↦ go (rw (filter-cons_true p y ys t) at m) (mem-of_filter p ys x)
    | inr f ↦ Memᴰ.tail (mem-of_filter p ys x (rw (filter-cons_false p y ys f) at m))
  ]
    where
      go : Memᴰ x (y ∷ filter p ys) → (Memᴰ x (filter p ys) → Memᴰ x ys) → Memᴰ x (y ∷ ys)
      go (Memᴰ.head e) f = Memᴰ.head e
      go (Memᴰ.tail n) f = Memᴰ.tail (f n)
