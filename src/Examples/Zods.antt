-- ===== src/Examples/Zods.antt =====
-- A zod that checks objects and their fields, and lets every other value pass.
use sentinel_engine_sovereig.Base.{
  String, true, false, Option, none, some, List, [], ◌∷◌, Result, ok, err, ◌>>=◌, >>=-eq-ok,
  includes, ◌==◌, eq_iff, if◌then◌else◌, Bool-cases, inl, inr, ◌≡◌, ◌⊎◌, refl, ap, subst, arith,
}
use sentinel_engine_sovereig.Schemas.Values.{
  Json, Fields, null, bool, num, str, arr, obj, no_fields, member, get_field,
}
use sentinel_engine_sovereig.Schemas.Shapes.{
  Schema, Shape, string, number, boolean, number_between, enumeration, array, array_max, object,
  optional, default_to, end, field,
}
use sentinel_engine_sovereig.Schemas.{Zod}
use sentinel_engine_sovereig.IntegrityController.{inner}
use sentinel_engine_sovereig.IntegrityController.Laws.{IsZod, shape_field, is_required}

abbrev both : Shape → Shape → Shape
both end later = later
both (field name schema rest) later = field name schema (both rest later)

abbrev chosen : List String → Shape → Shape
chosen names end = end
chosen names (field name schema rest) =
    if includes names name then field name schema (chosen names rest) else chosen names rest

abbrev test_merge : Schema → Schema → Schema
test_merge (object a) (object b) = object (both b a)
test_merge a b = a

abbrev test_pick : List String → Schema → Schema
test_pick names (object a) = object (chosen names a)
test_pick names a = a

abbrev without : String → Schema → Result (List String) Fields → Result (List String) Fields
without name (optional inner) later = later
without name (default_to value inner) later = later >>= λ out. ok (member name value out)
without name schema later = err (name ∷ [])

abbrev mutual
  test_parse : Schema → Json → Result (List String) Json
  test_parse (object shape) (obj members) = test_parse_shape shape members >>= λ out. ok (obj out)
  test_parse (object shape) value = err ("object" ∷ [])
  test_parse schema value = ok value

  test_parse_shape : Shape → Fields → Result (List String) Fields
  test_parse_shape end members = ok no_fields
  test_parse_shape (field name schema rest) members =
      let later = test_parse_shape rest members in
      elim (get_field name members) [
        | none ↦ without name schema later
        | some value ↦
            test_parse schema value >>= λ parsed. later >>= λ out. ok (member name parsed out)
      ]

abbrev pub test_zod : Zod
test_zod = record { pick = test_pick; merge = test_merge; safe_parse = test_parse }

both_field :
    (name : String) (b a : Shape)
    → shape_field name (both b a)
      ≡ elim (shape_field name b) [ some schema ↦ some schema | none ↦ shape_field name a ]
both_field name end a = refl
both_field name (field key schema rest) a = ground (arith, both_field name rest a)

chosen_field :
    (name : String) (names : List String) (a : Shape)
    → shape_field name (chosen names a) ≡ (if includes names name then shape_field name a else none)
chosen_field name names end = ground (arith)
chosen_field name names (field key schema rest) = elim (Bool-cases (includes names key)) [
  | inl kept ↦ ground (arith, kept, chosen_field name names rest, eq_iff key name)
  | inr dropped ↦ ground (arith, dropped, chosen_field name names rest, eq_iff key name)
]

parse_is_object :
    (shape : Shape) (value parsed : Json)
    → test_parse (object shape) value ≡ ok parsed
    → (members : Fields) × (members' : Fields) × (value ≡ obj members) × (parsed ≡ obj members')
parse_is_object shape (obj members) parsed h =
    let (out, _, done) = >>=-eq-ok (test_parse_shape shape members) _ h in
    (members, out, refl, ground (arith, done))
parse_is_object shape null parsed h = absurd (ground (arith, h))
parse_is_object shape (bool b) parsed h = absurd (ground (arith, h))
parse_is_object shape (num n) parsed h = absurd (ground (arith, h))
parse_is_object shape (str s) parsed h = absurd (ground (arith, h))
parse_is_object shape (arr items) parsed h = absurd (ground (arith, h))

Adds : String → Fields → Fields → Type 0
Adds name rest out = (out ≡ rest) ⊎ ((value : Json) × (out ≡ member name value rest))

without-eq-ok :
    (name : String) (own : Schema) (later : Result (List String) Fields) (out : Fields)
    → without name own later ≡ ok out
    → (rest : Fields) × (later ≡ ok rest) × (is_required own ≡ false) × Adds name rest out
unfolding Adds
without-eq-ok name (optional inner) later out h = (out, h, refl, inl refl)
without-eq-ok name (default_to value inner) later out h =
    let (rest, e, done) = >>=-eq-ok later _ h in (rest, e, refl, inr (value, ground (arith, done)))
without-eq-ok name string later out h = absurd (ground (arith, h))
without-eq-ok name number later out h = absurd (ground (arith, h))
without-eq-ok name boolean later out h = absurd (ground (arith, h))
without-eq-ok name (number_between a b) later out h = absurd (ground (arith, h))
without-eq-ok name (enumeration names) later out h = absurd (ground (arith, h))
without-eq-ok name (array own) later out h = absurd (ground (arith, h))
without-eq-ok name (array_max n own) later out h = absurd (ground (arith, h))
without-eq-ok name (object shape) later out h = absurd (ground (arith, h))

-- one field of an object that is accepted
parse_field :
    (key : String) (own : Schema) (rest : Shape) (members out : Fields)
    → test_parse_shape (field key own rest) members ≡ ok out
    → (later : Fields) × (test_parse_shape rest members ≡ ok later)
      × Adds key later out
      × ((is_required own ≡ false)
          ⊎ ((value : Json) × (value' : Json) × (get_field key members ≡ some value)
              × (test_parse own value ≡ ok value')))
unfolding Adds
parse_field key own rest members out h = go (get_field key members) refl
  where
    go :
        (found : Option Json)
        → get_field key members ≡ found
        → (later : Fields) × (test_parse_shape rest members ≡ ok later)
          × Adds key later out
          × ((is_required own ≡ false)
              ⊎ ((value : Json) × (value' : Json) × (get_field key members ≡ some value)
                  × (test_parse own value ≡ ok value')))
    go none e =
        let (later, parsed, free, adds) =
          without-eq-ok key own (test_parse_shape rest members) out
            (rw (e, test_parse_shape) at h) in
        (later, parsed, adds, inl free)
    go (some value) e =
        let (value', accepted, h1) =
          >>=-eq-ok (test_parse own value) _ (rw (e, test_parse_shape) at h) in
        let (later, parsed, done) = >>=-eq-ok (test_parse_shape rest members) _ h1 in
        (later, parsed, inr (value', ground (arith, done)), inr (value, value', e, accepted))

parse_shape_required :
    (shape : Shape) (members out : Fields) (name : String) (schema : Schema)
    → test_parse_shape shape members ≡ ok out
    → shape_field name shape ≡ some schema
    → is_required schema ≡ true
    → (value : Json) × (value' : Json) × (get_field name members ≡ some value)
      × (test_parse schema value ≡ ok value')
parse_shape_required end members out name schema h at needed = absurd (ground (arith, at))
parse_shape_required (field key own rest) members out name schema h at needed =
    let (later, parsed, _, met) = parse_field key own rest members out h in
    elim (Bool-cases (key == name)) [
      | inr apart ↦
          parse_shape_required rest members later name schema parsed (ground (arith, at, apart))
            needed
      | inl same ↦
          let is : own ≡ schema = ground (arith, at, same) in
          elim met [
            | inl free ↦ absurd (ground (arith, free, needed, ap is_required is))
            | inr (value, value', there, accepted) ↦ (
              value,
              value',
              subst (λ n. get_field n members ≡ some value) ((eq_iff key name).0 same) there,
              subst (λ s. test_parse s value ≡ ok value') is accepted,
            )
          ]
    ]

parse_shape_strips :
    (shape : Shape) (members out : Fields) (name : String)
    → test_parse_shape shape members ≡ ok out
    → shape_field name shape ≡ none
    → get_field name out ≡ none
unfolding get_field Adds
parse_shape_strips end members out name h at =
    let e : no_fields ≡ out = ground (arith, h) in rw (← e) refl
parse_shape_strips (field key own rest) members out name h at =
    let (later, parsed, adds, _) = parse_field key own rest members out h in
    elim (Bool-cases (key == name)) [
      | inl same ↦ absurd (ground (arith, at, same))
      | inr apart ↦
          let before =
            parse_shape_strips rest members later name parsed (ground (arith, at, apart)) in
          elim adds [ inl e ↦ rw e before | inr (value, e) ↦ rw e (rw apart before) ]
    ]

pub test_zod-IsZod : IsZod test_zod
test_zod-IsZod = record {
  merge-IsObject = λ a b. (_, refl);
  pick-IsObject = λ names a. (_, refl);
  merge_fields = λ name a b. both_field name b a;
  pick_fields = λ name names a. chosen_field name names a;
  parse_object = parse_is_object;
  parse_required = λ shape members parsed name schema h at needed.
      let (out, shaped, _) = >>=-eq-ok (test_parse_shape shape members) _ h in
      parse_shape_required shape members out name schema shaped at needed;
  parse_strips = λ shape value members name h missing.
      let (given, _, is, _) = parse_is_object shape value (obj members) h in
      let (out, shaped, done) =
        >>=-eq-ok (test_parse_shape shape given) _
          (subst (λ v. test_parse (object shape) v ≡ ok (obj members)) is h) in
      let same : out ≡ members = ground (arith, done) in
      subst (λ m. get_field name m ≡ none) same
        (parse_shape_strips shape given out name shaped missing);
}
