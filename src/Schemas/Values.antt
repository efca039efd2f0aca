-- ===== src/Schemas/Values.antt =====
-- The values of JSON that functions/ passes between its parts. A number is counted in thousandths: the
-- code compares the numbers of an answer with 0, 0.5 and 1 only.
use sentinel_engine_sovereig.Base.{
  ℕ, zero, suc, String, Bool, true, false, Option, none, some, List, [], ◌∷◌, Result, ok, err, ◌==◌,
  not, if◌then◌else◌,
}
use sentinel_engine_sovereig.Base.Int.{ℤ, pos, negsuc}

mutual
  pub data Json : Type 0 where
    null : Json
    bool : Bool → Json
    num : ℤ → Json
    str : String → Json
    arr : Items → Json
    obj : Fields → Json

  pub data Items : Type 0 where
    no_items : Items
    item : Json → Items → Items

  pub data Fields : Type 0 where
    no_fields : Fields
    member : String → Json → Fields → Fields

-- 1 in thousandths
abbrev pub one_unit : ℕ
one_unit = 1000

pub data Fault : Type 0 where
  -- a property of null or undefined is read
  type_error : Fault

abbrev pub texts : List String → Items
texts [] = no_items
texts (s ∷ rest) = item (str s) (texts rest)

-- Boolean(value)
abbrev pub is_truthy : Json → Bool
is_truthy null = false
is_truthy (bool b) = b
is_truthy (num (pos n)) = elim n [ zero ↦ false | suc _ ↦ true ]
is_truthy (num (negsuc n)) = true
is_truthy (str s) = not (s == "")
is_truthy (arr items) = true
is_truthy (obj members) = true

-- object[name], undefined where it is missing
unfoldable pub get_field : String → Fields → Option Json
get_field name no_fields = none
get_field name (member key value rest) = if key == name then some value else get_field name rest

-- object[name] = value, which keeps the place of a field that is there
unfoldable pub set_field : String → Json → Fields → Fields
set_field name new no_fields = member name new no_fields
set_field name new (member key value rest) =
    if key == name then member key new rest else member key value (set_field name new rest)

-- value[name] of any value; of the names that are read here none is a property of another kind
unfoldable pub field_of : String → Json → Result Fault (Option Json)
field_of name null = err type_error
field_of name (obj members) = ok (get_field name members)
field_of name (bool b) = ok none
field_of name (num n) = ok none
field_of name (str s) = ok none
field_of name (arr items) = ok none
