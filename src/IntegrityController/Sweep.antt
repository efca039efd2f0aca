-- ===== src/IntegrityController/Sweep.antt =====
-- functions/integrity-controller.js: the fields that the sweep over the texts keeps.
use sentinel_engine_sovereig.Base.{
  String, false, Option, none, some, ok, >>=-eq-ok, ◌==◌, eq_iff, Bool-cases, Option-cases, inl,
  inr, ◌≡◌, refl, ◌∙◌, arith,
}
use sentinel_engine_sovereig.Schemas.Values.{
  Json, Fields, str, obj, no_fields, member, get_field, set_field,
}
use sentinel_engine_sovereig.IntegrityController.{
  text_of, tokenize_field, tokenize_executive, tokenize_recommendations, sweep,
}

pub get_field-set_self :
    (name : String) (value : Json) (members : Fields)
    → get_field name (set_field name value members) ≡ some value
unfolding get_field set_field
get_field-set_self name value no_fields = ground (arith, eq_iff name name)
get_field-set_self name value (member key old rest) =
    ground (arith, get_field-set_self name value rest, eq_iff key name)

pub get_field-set_ne :
    (set read : String) (value : Json) (members : Fields)
    → (set == read) ≡ false
    → get_field read (set_field set value members) ≡ get_field read members
unfolding get_field set_field
get_field-set_ne set read value no_fields apart = ground (arith, apart)
get_field-set_ne set read value (member key old rest) apart = ground (
  arith,
  get_field-set_ne set read value rest apart,
  eq_iff key set,
  eq_iff key read,
  eq_iff set read,
)

-- a field that the sweep does not write
tokenize_field-keeps :
    (tokenize : String → Option String) (name read : String) (members out : Fields)
    → (name == read) ≡ false
    → tokenize_field tokenize name members ≡ ok out
    → get_field read out ≡ get_field read members
unfolding tokenize_field
tokenize_field-keeps tokenize name read members out apart h =
    elim (Bool-cases (text_of (get_field name members) == "")) [
      | inl empty ↦ let same : members ≡ out = ground (arith, h, empty) in rw same refl
      | inr filled ↦ elim (Option-cases (tokenize (text_of (get_field name members)))) [
        | inl failed ↦ absurd (ground (arith, h, filled, failed))
        | inr (token, told) ↦
            let same : set_field name (str token) members ≡ out = ground (arith, h, filled, told) in
            rw (← same) (get_field-set_ne name read (str token) members apart)
      ]
    ]

pub tokenize_executive-keeps :
    (tokenize : String → Option String) (read : String) (members out : Fields)
    (action : Option Json)
    → ("executiveAction" == read) ≡ false
    → tokenize_executive tokenize members action ≡ ok out
    → get_field read out ≡ get_field read members
unfolding tokenize_executive
tokenize_executive-keeps tokenize read members out none apart h =
    let same : members ≡ out = ground (arith, h) in rw same refl
tokenize_executive-keeps tokenize read members out (some (obj action)) apart h =
    let (told, _, later) = >>=-eq-ok (tokenize_field tokenize "narrative" action) _ h in
    let (swept, _, end) =
      >>=-eq-ok (tokenize_recommendations tokenize told (get_field "recommendations" told)) _
        later in
    let same : set_field "executiveAction" (obj swept) members ≡ out = ground (arith, end) in
    rw (← same) (get_field-set_ne "executiveAction" read (obj swept) members apart)
tokenize_executive-keeps tokenize read members out (some other) apart h =
    let same : members ≡ out = ground (arith, h) in rw same refl

pub sweep-keeps :
    (tokenize : String → Option String) (read : String) (members out : Fields)
    → ("executiveAction" == read) ≡ false
    → ("narrative" == read) ≡ false
    → sweep tokenize members ≡ ok out
    → get_field read out ≡ get_field read members
unfolding sweep
sweep-keeps tokenize read members out action narrative h =
    let (told, first, later) = >>=-eq-ok (tokenize_field tokenize "narrative" members) _ h in
    tokenize_executive-keeps tokenize read told out (get_field "executiveAction" told) action later
    ∙ tokenize_field-keeps tokenize "narrative" read members told narrative first
