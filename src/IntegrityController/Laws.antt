-- ===== src/IntegrityController/Laws.antt =====
-- What zod documents of the calls that functions/schemas.js makes, as far as the properties of
-- functions/integrity-controller.js need it.
use sentinel_engine_sovereig.Base.{
  String, Bool, true, false, Option, none, some, List, ok, includes, ◌==◌, if◌then◌else◌, ◌≡◌,
}
use sentinel_engine_sovereig.Schemas.Values.{Json, Fields, obj, get_field}
use sentinel_engine_sovereig.Schemas.Shapes.{
  Schema, Shape, object, optional, default_to, end, field,
}
use sentinel_engine_sovereig.Schemas.{Zod}

abbrev pub shape_field : String → Shape → Option Schema
shape_field name end = none
shape_field name (field key schema rest) =
    if key == name then some schema else shape_field name rest

-- the schema of a field of an object, none where it is no object
abbrev pub schema_field : String → Schema → Option Schema
schema_field name schema = elim schema [ object shape ↦ shape_field name shape | _ ↦ none ]

abbrev pub IsObject : Schema → Type 0
IsObject schema = (shape : Shape) × (schema ≡ object shape)

abbrev pub is_required : Schema → Bool
is_required schema = elim schema [
  | optional inner ↦ false
  | default_to value inner ↦ false
  | _ ↦ true
]

-- The fields of a merge are those of both objects, the second one's before the first one's, and the
-- fields of a choice are the chosen ones. A value is accepted by an object only if it is one, each
-- required field is there and is accepted by its own schema, and the result has no other fields than
-- those of the schema.
pub record IsZod (zod : Zod) : Type 0 where
  pub merge-IsObject : (a b : Shape) → IsObject (zod.merge (object a) (object b))
  pub pick-IsObject : (names : List String) (a : Shape) → IsObject (zod.pick names (object a))
  pub merge_fields :
      (name : String) (a b : Shape)
      → schema_field name (zod.merge (object a) (object b))
        ≡ elim (shape_field name b) [ some schema ↦ some schema | none ↦ shape_field name a ]
  pub pick_fields :
      (name : String) (names : List String) (a : Shape)
      → schema_field name (zod.pick names (object a))
        ≡ (if includes names name then shape_field name a else none)
  pub parse_object :
      (shape : Shape) (value parsed : Json)
      → zod.safe_parse (object shape) value ≡ ok parsed
      → (members : Fields) × (members' : Fields) × (value ≡ obj members) × (parsed ≡ obj members')
  pub parse_required :
      (shape : Shape) (members : Fields) (parsed : Json) (name : String) (schema : Schema)
      → zod.safe_parse (object shape) (obj members) ≡ ok parsed
      → shape_field name shape ≡ some schema
      → is_required schema ≡ true
      → (value : Json) × (value' : Json) × (get_field name members ≡ some value)
        × (zod.safe_parse schema value ≡ ok value')
  pub parse_strips :
      (shape : Shape) (value : Json) (members : Fields) (name : String)
      → zod.safe_parse (object shape) value ≡ ok (obj members)
      → shape_field name shape ≡ none
      → get_field name members ≡ none
