-- ===== src/Base/Maps.antt =====
-- A JavaScript `Map` with string keys, or a table of the database keyed by its primary key: an
-- association list that keeps the place of a key that is set again.
use text.Mathlib.TextPositions.{eq_refl}
use text.Mathlib.Text.{◌==◌}
use text.Mathlib.TextEquality.{eq_iff}
use Prim.Native.String.{String}
use mathlib.Core.Path.{◌≡◌, refl}
use mathlib.Core.Bool.{false}
use mathlib.Core.Option.{Option, none, some}
use mathlib.Core.List.{List, [], ◌∷◌}
use native.Mathlib.Omega.{arith}
use sentinel_engine_sovereig.Base.Tests.{if◌then◌else◌}

abbrev pub Table {ℓ} : Type ℓ → Type ℓ
Table V = List (String × V)

module _ {ℓ} {V : Type ℓ} where
  -- m.get(key)
  unfoldable pub lookup : String → Table V → Option V
  lookup key [] = none
  lookup key ((name, value) ∷ rest) = if name == key then some value else lookup key rest

  -- m.set(key, new)
  unfoldable pub insert : String → V → Table V → Table V
  insert key new [] = (key, new) ∷ []
  insert key new ((name, value) ∷ rest) =
      if name == key then (name, new) ∷ rest else (name, value) ∷ insert key new rest

  pub lookup-insert :
      (set read : String) (new : V) (table : Table V)
      → lookup read (insert set new table) ≡ (if set == read then some new else lookup read table)
  unfolding lookup insert
  lookup-insert set read new [] = refl
  lookup-insert set read new ((name, value) ∷ rest) =
      ground
        (arith, lookup-insert set read new rest, eq_iff name read, eq_iff name set, eq_iff set read)

  pub lookup-insert_self :
      (key : String) (new : V) (table : Table V) → lookup key (insert key new table) ≡ some new
  lookup-insert_self key new table = simp (eq_refl, lookup-insert)

  pub lookup-insert_ne :
      (set read : String) (new : V) (table : Table V)
      → (set == read) ≡ false
      → lookup read (insert set new table) ≡ lookup read table
  lookup-insert_ne set read new table apart = rw lookup-insert (rw apart)

  -- m.delete(key)
  unfoldable pub remove : String → Table V → Table V
  remove key [] = []
  remove key ((name, value) ∷ rest) =
      let others = remove key rest in if name == key then others else (name, value) ∷ others

  pub lookup-remove_self : (key : String) (table : Table V) → lookup key (remove key table) ≡ none
  unfolding lookup remove
  lookup-remove_self key [] = refl
  lookup-remove_self key ((name, value) ∷ rest) = ground (arith, lookup-remove_self key rest)

  pub lookup-remove_ne :
      (gone read : String) (table : Table V)
      → (gone == read) ≡ false
      → lookup read (remove gone table) ≡ lookup read table
  unfolding lookup remove
  lookup-remove_ne gone read [] apart = refl
  lookup-remove_ne gone read ((name, value) ∷ rest) apart = ground (
    arith,
    lookup-remove_ne gone read rest apart,
    eq_iff name gone,
    eq_iff name read,
    eq_iff gone read,
  )
