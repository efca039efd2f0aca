-- ===== src/Schemas/Reports.antt =====
-- functions/schemas.js: which modules of a refused answer are reported.
use sentinel_engine_sovereig.Base.{
  ℕ, suc, ◌+◌, ◌≤◌, length, String, Bool, false, Option, none, some, List, [], ◌∷◌, Result, ok, err,
  >>=-eq-ok, includes, ◌==◌, eq_iff, ◌≡◌, refl, ap, sym, subst, ◌∙◌, arith, Bool-cases, inl, inr,
}
use sentinel_engine_sovereig.Schemas.Values.{Json, Fields, obj, get_field, field_of}
use sentinel_engine_sovereig.Schemas.Shapes.{Schema}
use sentinel_engine_sovereig.Schemas.{
  Zod, Errors, Validation, names, check_module, add_report, module_errors, core_errors, report,
  schema_map, validated, validate_inference_response, get_schema_for_domain,
}

core_errors-missing :
    (confidence sources : Option Json) (name : String)
    → ("confidence" == name) ≡ false
    → ("sources" == name) ≡ false
    → includes (names (core_errors confidence sources)) name ≡ false
unfolding core_errors
core_errors-missing confidence sources name h k = ground (arith, h, k)

check_module-some :
    (zod : Zod) (schema : Schema) (value : Option Json) (name key : String) (members : Fields)
    (found : Errors)
    → get_field key members ≡ value
    → get_field name members ≡ none
    → includes (names found) name ≡ false
    → includes (names (add_report key (check_module zod schema value) found)) name ≡ false
unfolding check_module add_report
check_module-some zod schema none name key members found at missing h = h
check_module-some zod schema (some value) name key members found at missing h =
    elim (Bool-cases (key == name)) [
      | inl same ↦
          let e = (eq_iff key name).0 same in
          let none_is_some : none ≡ some value =
            sym missing ∙ ap (λ n. get_field n members) (sym e) ∙ at in
          cc
      | inr apart ↦ ground (arith, apart, h)
    ]

module_errors-missing :
    (zod : Zod) (members : Fields) (name : String) (entries : List (String × Schema))
    (rest found : Errors)
    → module_errors zod (obj members) entries rest ≡ ok found
    → get_field name members ≡ none
    → includes (names rest) name ≡ false
    → includes (names found) name ≡ false
unfolding module_errors field_of
module_errors-missing zod members name [] rest found h missing before =
    let same : rest ≡ found = ground (arith, h) in
    subst (λ errors. includes (names errors) name ≡ false) same before
module_errors-missing zod members name ((key, schema) ∷ entries) rest found h missing before =
    let (reported, later, end) = >>=-eq-ok (module_errors zod (obj members) entries rest) _ h in
    let same : add_report key (check_module zod schema (get_field key members)) reported ≡ found =
      ground (arith, end) in
    subst (λ errors. includes (names errors) name ≡ false) same
      (check_module-some zod schema (get_field key members) name key members reported refl missing
        (module_errors-missing zod members name entries rest reported later missing before))

validated-missing :
    (zod : Zod) (members : Fields) (domain name : String) (parsed : Result (List String) Json)
    (validation : Validation)
    → validated zod domain (obj members) parsed ≡ ok validation
    → get_field name members ≡ none
    → ("confidence" == name) ≡ false
    → ("sources" == name) ≡ false
    → includes validation.failed_modules name ≡ false
unfolding validated report field_of
validated-missing zod members domain name (ok parsed) validation h missing n m = ground (arith, h)
validated-missing zod members domain name (err issues) validation h missing n m =
    let core = core_errors (get_field "confidence" members) (get_field "sources" members) in
    let (found, listed, end) =
      >>=-eq-ok (module_errors zod (obj members) (schema_map domain) core) _ h in
    let same : names found ≡ validation.failed_modules = ground (arith, end) in
    rw (← same) (
      module_errors-missing zod members name (schema_map domain) core found listed missing (
        core_errors-missing (get_field "confidence" members) (get_field "sources" members) name n
          m))

-- A module that an answer lacks is never reported as failed, whatever the domain and the schemas say:
-- only `confidence` and `sources` are reported when they are missing.
missing_unreported :
    (zod : Zod) (members : Fields) (domain name : String) (is_partial : Bool)
    (validation : Validation)
    → validate_inference_response zod (obj members) domain is_partial ≡ ok validation
    → get_field name members ≡ none
    → ("confidence" == name) ≡ false
    → ("sources" == name) ≡ false
    → includes validation.failed_modules name ≡ false
unfolding validate_inference_response
missing_unreported zod members domain name is_partial validation h missing n m =
    validated-missing zod members domain name
      (zod.safe_parse (get_schema_for_domain zod domain is_partial) (obj members)) validation h
      missing n m

-- the reports on an object are always found
pub module_errors-returns :
    (zod : Zod) (members : Fields) (entries : List (String × Schema)) (rest : Errors)
    → (found : Errors) × (module_errors zod (obj members) entries rest ≡ ok found)
unfolding module_errors field_of
module_errors-returns zod members [] rest = (rest, refl)
module_errors-returns zod members ((name, schema) ∷ entries) rest =
    let (found, returned) = module_errors-returns zod members entries rest in
    (
      add_report name (check_module zod schema (get_field name members)) found,
      rw (returned, module_errors) refl,
    )

-- the sum of the weights of some names
abbrev pub total : (String → ℕ) → List String → ℕ
total weight [] = 0
total weight (name ∷ names) = weight name + total weight names

module _ (weight : String → ℕ) (light : (name : String) → weight name ≤ 1) where
  add_report-total :
      (name : String) (issues : Option (List String)) (rest : Errors)
      → total weight (names (add_report name issues rest)) ≤ suc (total weight (names rest))
  unfolding add_report
  add_report-total name none rest = omega arith
  add_report-total name (some issues) rest = omega (arith, light name)

  module_errors-total :
      (zod : Zod) (answer : Json) (entries : List (String × Schema)) (rest found : Errors)
      → module_errors zod answer entries rest ≡ ok found
      → total weight (names found) ≤ length entries + total weight (names rest)
  unfolding module_errors
  module_errors-total zod answer [] rest found h =
      let same : rest ≡ found = ground (arith, h) in
      subst (λ e. total weight (names e) ≤ 0 + total weight (names rest)) same (omega arith)
  module_errors-total zod answer ((key, schema) ∷ entries) rest found h =
      let (value, _, h1) = >>=-eq-ok (field_of key answer) _ h in
      let (reported, later, end) = >>=-eq-ok (module_errors zod answer entries rest) _ h1 in
      let same : add_report key (check_module zod schema value) reported ≡ found =
        ground (arith, end) in
      subst (λ e. total weight (names e) ≤ suc (length entries) + total weight (names rest)) same
        (omega (
          arith,
          add_report-total key (check_module zod schema value) reported,
          module_errors-total zod answer entries rest reported later,
        ))

schema_map-length : (domain : String) → length (schema_map domain) ≡ 3
unfolding schema_map
schema_map-length domain = elim (Bool-cases (domain == "ENERGY")) [
  | inl energy ↦ rw (energy, schema_map) refl
  | inr other ↦ rw (other, schema_map) refl
]

core_errors-total :
    (weight : String → ℕ) (confidence sources : Option Json)
    → weight "confidence" ≡ 0
    → weight "sources" ≡ 0
    → total weight (names (core_errors confidence sources)) ≡ 0
unfolding core_errors
core_errors-total weight confidence sources c s = ground (arith, c, s)

-- At most three modules are reported; the other reports are on the mandatory core.
pub validated-total :
    (weight : String → ℕ) (zod : Zod) (domain : String) (answer : Json)
    (parsed : Result (List String) Json) (v : Validation)
    → ((name : String) → weight name ≤ 1)
    → weight "confidence" ≡ 0
    → weight "sources" ≡ 0
    → validated zod domain answer parsed ≡ ok v
    → total weight v.failed_modules ≤ 3
unfolding validated report
validated-total weight zod domain answer (ok value) v light c s h = ground (arith, h)
validated-total weight zod domain answer (err issues) v light c s h =
    let (confidence, _, h1) = >>=-eq-ok (field_of "confidence" answer) _ h in
    let (sources, _, h2) = >>=-eq-ok (field_of "sources" answer) _ h1 in
    let (found, listed, end) =
      >>=-eq-ok (module_errors zod answer (schema_map domain) (core_errors confidence sources)) _
        h2 in
    let same : names found ≡ v.failed_modules = ground (arith, end) in
    subst (λ (l : List String). total weight l ≤ 3) same
      (omega (
        arith,
        module_errors-total weight light zod answer (schema_map domain)
            (core_errors confidence sources) found listed,
        schema_map-length domain,
        core_errors-total weight confidence sources c s,
      ))
