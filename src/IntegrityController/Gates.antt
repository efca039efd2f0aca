-- ===== src/IntegrityController/Gates.antt =====
-- functions/integrity-controller.js: what an audit that returns has made sure of.
use sentinel_engine_sovereig.Base.{
  ◌≤◌, String, Bool, true, false, Option, none, some, ok, >>=-eq-ok, ◌==◌, or_text, if◌then◌else◌,
  Bool-cases, inl, inr, ◌≡◌, refl, ap, sym, ◌∙◌, arith,
}
use sentinel_engine_sovereig.Base.Int.{ℤ, pos, ltb_ℤ, ◌≤ℤ◌, ltb_ℤ-false}
use sentinel_engine_sovereig.SecurityManager.Patterns.{Text}
use sentinel_engine_sovereig.SecurityManager.Providers.{text_length}
use sentinel_engine_sovereig.Schemas.Values.{
  Json, Fields, null, bool, num, str, arr, obj, get_field, set_field,
}
use sentinel_engine_sovereig.Schemas.{Zod, get_schema_for_domain}
use sentinel_engine_sovereig.IntegrityController.{
  is_degraded, partial_confidence_cap, cap_confidence, narrative_of, text_of, gate_partial,
  tokenize_field, sweep, audit_members, audit_value, final_truth_audit,
}
use sentinel_engine_sovereig.IntegrityController.Laws.{IsZod}
use sentinel_engine_sovereig.IntegrityController.Sweep.{
  get_field-set_self, get_field-set_ne, tokenize_executive-keeps, sweep-keeps,
}
use sentinel_engine_sovereig.IntegrityController.Refusals.{audit-eq-ok, parse-strips}

cap_confidence-keeps :
    (read : String) (members : Fields)
    → ("confidence" == read) ≡ false
    → get_field read (cap_confidence members) ≡ get_field read members
unfolding cap_confidence
cap_confidence-keeps read members apart = go (get_field "confidence" members) refl
  where
    go :
        (found : Option Json)
        → get_field "confidence" members ≡ found
        → get_field read (cap_confidence members) ≡ get_field read members
    go none e = rw (e, cap_confidence) refl
    go (some (num n)) e = elim (Bool-cases (ltb_ℤ (pos partial_confidence_cap) n)) [
      | inl high ↦
          rw (e, cap_confidence)
            (rw high
              (get_field-set_ne "confidence" read (num (pos partial_confidence_cap)) members apart))
      | inr low ↦ rw (e, cap_confidence) (rw low refl)
    ]
    go (some other) e = rw (e, cap_confidence) refl

cap_confidence-le :
    (members : Fields) (n : ℤ)
    → get_field "confidence" (cap_confidence members) ≡ some (num n)
    → n ≤ℤ pos partial_confidence_cap
unfolding cap_confidence
cap_confidence-le members n h = go (get_field "confidence" members) refl
  where
    go :
        (found : Option Json)
        → get_field "confidence" members ≡ found
        → n ≤ℤ pos partial_confidence_cap
    go (some (num m)) e = elim (Bool-cases (ltb_ℤ (pos partial_confidence_cap) m)) [
      | inl high ↦
          let capped : get_field "confidence" (cap_confidence members) ≡ some (num (pos 500)) =
            rw (e, cap_confidence)
              (rw high
                (get_field-set_self "confidence" (num (pos partial_confidence_cap)) members)) in
          ground (arith, capped, h)
      | inr low ↦
          let whole : get_field "confidence" (cap_confidence members) ≡ some (num m) =
            rw (e, cap_confidence) (rw low e) in
          let same : n ≡ m = ground (arith, whole, h) in
          rw same (ltb_ℤ-false (pos partial_confidence_cap) m low)
    ]
    go none e =
        let bare : get_field "confidence" (cap_confidence members) ≡ none =
          rw (e, cap_confidence) e in
        absurd (ground (arith, bare, h))
    go (some other) e =
        let whole : get_field "confidence" (cap_confidence members) ≡ some other =
          rw (e, cap_confidence) e in
        absurd (ground (arith, whole, h))

gate_partial-eq-ok :
    (members gated : Fields)
    → gate_partial members ≡ ok gated
    → (cap_confidence (set_field "_verificationPartial" (bool true) members) ≡ gated)
      × (50 ≤ text_length (narrative_of gated))
unfolding gate_partial
gate_partial-eq-ok members gated h = (ground (arith, h), ground (arith, h))

audit_value-eq-ok :
    (tokenize : String → Option String) (is_partial : Bool) (value : Json) (out : Fields)
    → audit_value tokenize is_partial value ≡ ok (obj out)
    → (given : Fields) × (gated : Fields) × (value ≡ obj given)
      × ((if is_partial then gate_partial given else ok given) ≡ ok gated)
      × (sweep tokenize gated ≡ ok out)
unfolding audit_value audit_members
audit_value-eq-ok tokenize is_partial (obj given) out h =
    let (gated, first, later) =
      >>=-eq-ok (if is_partial then gate_partial given else ok given) _ h in
    let (swept, second, end) = >>=-eq-ok (sweep tokenize gated) _ later in
    let same : swept ≡ out = ground (arith, end) in (given, gated, refl, first, rw (← same) second)
audit_value-eq-ok tokenize is_partial null out h = absurd (ground (arith, h))
audit_value-eq-ok tokenize is_partial (bool b) out h = absurd (ground (arith, h))
audit_value-eq-ok tokenize is_partial (num n) out h = absurd (ground (arith, h))
audit_value-eq-ok tokenize is_partial (str s) out h = absurd (ground (arith, h))
audit_value-eq-ok tokenize is_partial (arr items) out h = absurd (ground (arith, h))

-- An answer on a partial context that passes the last gate was accepted by zod, its confidence is no
-- higher than 0.5, whatever the model claimed, and its narrative had at least 50 characters before
-- the tokens were put in.
pub audit-partial_gated :
    (zod : Zod) (tokenize : String → Option String) (answer : Json) (domain : Option String)
    (context : Text) (out : Fields) (n : ℤ)
    → final_truth_audit zod tokenize answer domain context ≡ ok (obj out)
    → is_degraded context ≡ true
    → get_field "confidence" out ≡ some (num n)
    → (given : Fields) × (gated : Fields) × (zod.safe_parse
          (get_schema_for_domain zod (or_text domain "LOGISTICS") true)
          answer
        ≡ ok (obj given))
      × (gated ≡ cap_confidence (set_field "_verificationPartial" (bool true) given))
      × (50 ≤ text_length (narrative_of gated))
      × (sweep tokenize gated ≡ ok out)
      × (n ≤ℤ pos partial_confidence_cap)
audit-partial_gated zod tokenize answer domain context out n h degraded confidence =
    let (value, accepted, audited) = audit-eq-ok zod tokenize answer (obj out) domain context h in
    let (given, gated, is, first, second) =
      audit_value-eq-ok tokenize (is_degraded context) value out audited in
    let passed : gate_partial given ≡ ok gated = rw degraded at first in
    let (capped, long) = gate_partial-eq-ok given gated passed in
    let kept = sweep-keeps tokenize "confidence" gated out refl refl second in
    (
      given,
      gated,
      ap
            (λ (p : Bool).
              zod.safe_parse (get_schema_for_domain zod (or_text domain "LOGISTICS") p) answer)
            (sym degraded)
          ∙ accepted
          ∙ ap ok is,
      sym capped,
      long,
      second,
      cap_confidence-le (set_field "_verificationPartial" (bool true) given) n
          (rw capped (sym kept ∙ confidence)),
    )

gated-keeps :
    (is_partial : Bool) (read : String) (given gated : Fields)
    → ("confidence" == read) ≡ false
    → ("_verificationPartial" == read) ≡ false
    → (if is_partial then gate_partial given else ok given) ≡ ok gated
    → get_field read gated ≡ get_field read given
gated-keeps false read given gated c v h =
    let same : given ≡ gated = ground (arith, h) in rw same refl
gated-keeps true read given gated c v h =
    let (capped, long) = gate_partial-eq-ok given gated h in
    rw (← capped) (
      cap_confidence-keeps read (set_field "_verificationPartial" (bool true) given) c
      ∙ get_field-set_ne "_verificationPartial" read (bool true) given v)

sweep-keeps_missing :
    (tokenize : String → Option String) (members out : Fields)
    → sweep tokenize members ≡ ok out
    → get_field "narrative" members ≡ none
    → get_field "narrative" out ≡ none
unfolding sweep tokenize_field
sweep-keeps_missing tokenize members out h missing =
    let (told, first, later) = >>=-eq-ok (tokenize_field tokenize "narrative" members) _ h in
    let empty : (text_of (get_field "narrative" members) == "") ≡ true = rw missing refl in
    let same : members ≡ told = ground (arith, first, empty) in
    tokenize_executive-keeps tokenize "narrative" told out (get_field "executiveAction" told) refl
      later
    ∙ (rw (← same) missing)

-- What the handler writes at the top of an answer does not reach the client: whatever narrative and
-- metrics the answer has there when it is audited, what the audit returns has neither, since no
-- schema has them. So the text that replaces the narrative of an answer of low confidence is dropped,
-- and the narrative of its executive action stays.
pub audit-drops_top :
    (zod : Zod) (tokenize : String → Option String) (answer : Json) (domain : Option String)
    (context : Text) (out : Fields)
    → IsZod zod
    → final_truth_audit zod tokenize answer domain context ≡ ok (obj out)
    → (get_field "narrative" out ≡ none) × (get_field "metrics" out ≡ none)
audit-drops_top zod tokenize answer domain context out laws h =
    let p = is_degraded context in
    let (value, accepted, audited) = audit-eq-ok zod tokenize answer (obj out) domain context h in
    let (given, gated, is, first, second) = audit_value-eq-ok tokenize p value out audited in
    let accepted' = accepted ∙ ap ok is in
    let d = or_text domain "LOGISTICS" in
    let no_metrics =
      parse-strips zod d "metrics" p answer given laws (refl, refl, refl) refl accepted' in
    let no_narrative =
      parse-strips zod d "narrative" p answer given laws (refl, refl, refl) refl accepted' in
    (
      sweep-keeps_missing tokenize gated out second
          (gated-keeps p "narrative" given gated refl refl first ∙ no_narrative),
      sweep-keeps tokenize "metrics" gated out refl refl second
          ∙ gated-keeps p "metrics" given gated refl refl first
          ∙ no_metrics,
    )
