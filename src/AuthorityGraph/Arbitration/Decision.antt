-- ===== src/AuthorityGraph/Arbitration/Decision.antt =====
-- functions/authority-graph/arbitration.js: the whole of evaluateDecision, from the request to the
-- signed record.
use sentinel_engine_sovereig.Base.{
  ℕ, String, Option, none, some, [], Result, ok, err, or_text, ◌≡◌, refl, ◌↔◌, ◌≢◌, ap, sym, ◌∙◌,
  arith,
}
use sentinel_engine_sovereig.AuthorityGraph.Unit.{Fault, Context, AuthorityUnit}
use sentinel_engine_sovereig.AuthorityGraph.Loader.{UnitLoader, load_graph}
use sentinel_engine_sovereig.AuthorityGraph.Arbitration.{
  denied_no_ambient_authority, permit, Kms, Action, Env, LegibilityRecord, finalize, initial_record,
  domain_tiers, evaluate_tiers, load_target, evaluate_source, evaluate_decision,
}
use sentinel_engine_sovereig.AuthorityGraph.Arbitration.Permits.{
  Passes, permitted, evaluate_tiers_sound, evaluate_tiers_complete,
}

-- A record leaves `finalize` as a permit only where the key signed it.
finalize-permit :
    (key : Kms) (r : LegibilityRecord)
    → (finalize (some key) r).status ≡ permit
    → (s : String) × (key.sign r ≡ ok s)
      × (finalize (some key) r ≡ record r { signature = some s })
      × (r.status ≡ permit)
unfolding finalize
finalize-permit key r h = go (key.sign r) refl
  where
    go :
        (x : Result Fault String)
        → key.sign r ≡ x
        → (s : String) × (key.sign r ≡ ok s)
          × (finalize (some key) r ≡ record r { signature = some s })
          × (r.status ≡ permit)
    go (ok s) e = (s, e, ground arith, ground arith)
    go (err fault) e = absurd (ground arith)

finalize-keyless : (r : LegibilityRecord) → (finalize none r).status ≢ permit
unfolding finalize
finalize-keyless r h = ground arith

-- The tiers sign nothing themselves.
signature-evaluate_tiers :
    (kms : Option Kms) (now : ℕ) (context : Context) (action : Action) (source : AuthorityUnit)
    (target : Option AuthorityUnit) (r : LegibilityRecord)
    → (evaluate_tiers kms now context action source target r).signature ≡ r.signature
unfolding evaluate_tiers domain_tiers
signature-evaluate_tiers kms now context action source none r = ground arith
signature-evaluate_tiers kms now context action source (some t) r = ground arith

-- the record that the tiers start from
abbrev pub started : Env → String → Action → Context → AuthorityUnit → LegibilityRecord
started env request_id action context source =
    record (initial_record env request_id action context) {
      delegation_chain = source.provenance.chain;
    }

abbrev pub IsSigned : Option Kms → LegibilityRecord → Type 0
IsSigned kms r =
    (key : Kms) × (s : String) × (kms ≡ some key)
    × (r.signature ≡ some s)
    × (key.sign (record r { signature = none }) ≡ ok s)

finalize-IsSigned :
    (kms : Option Kms) (r f : LegibilityRecord)
    → r.signature ≡ none
    → finalize kms r ≡ f
    → f.status ≡ permit
    → IsSigned kms f
finalize-IsSigned none r f unsigned e h =
    absurd (finalize-keyless r (ap (λ (x : LegibilityRecord). x.status) e ∙ h))
finalize-IsSigned (some key) r f unsigned e h =
    let (s, signed, made, _) =
      finalize-permit key r (ap (λ (x : LegibilityRecord). x.status) e ∙ h) in
    let f_eq = sym e ∙ made in
    (
      key,
      s,
      refl,
      ap (λ (x : LegibilityRecord). x.signature) f_eq,
      ap (λ (x : LegibilityRecord). key.sign (record x { signature = none })) f_eq
          ∙ ap (λ (o : Option String). key.sign (record r { signature = o })) (sym unsigned)
          ∙ signed,
    )

bare :
    (env : Env) (request_id : String) (action : Action) (context : Context)
    → (initial_record env request_id action context).signature ≡ none
unfolding initial_record
bare env request_id action context = refl

fresh :
    (env : Env) (request_id : String) (action : Action) (context : Context) (source : AuthorityUnit)
    → (started env request_id action context source).contracts_traversed ≡ []
unfolding initial_record
fresh env request_id action context source = refl

evaluate_source-IsSigned :
    (env : Env) (request_id : String) (action : Action) (context : Context) (kms : Option Kms)
    (loader : UnitLoader) (found : Result Fault (Option AuthorityUnit)) (f : LegibilityRecord)
    → (evaluate_source env action context kms
        (initial_record env request_id action context)
        loader
        found).1
      ≡ ok f
    → f.status ≡ permit
    → IsSigned kms f
unfolding evaluate_source
evaluate_source-IsSigned env request_id action context kms loader (err fault) f e h =
    finalize-IsSigned kms
      (record (initial_record env request_id action context) {
        status = denied_no_ambient_authority;
      })
      f (bare env request_id action context) (cc) h
evaluate_source-IsSigned env request_id action context kms loader (ok none) f e h = cc
evaluate_source-IsSigned env request_id action context kms loader (ok (some source)) f e h =
    let target = (load_target env action loader).1 in
    finalize-IsSigned kms
      (evaluate_tiers kms env.conditions_read context action source target
        (started env request_id action context source))
      f
      (signature-evaluate_tiers kms env.conditions_read context action source target _
        ∙ bare env request_id action context)
      (cc) h

-- No request is permitted without a signed record: whatever the database, the units and the
-- conditions are, a permit comes with a key service, and its signature is what that service gives
-- for the record itself, with its status and without the signature.
pub permit-IsSigned :
    (env : Env) (request_id : String) (action : Action) (context : Context) (kms : Option Kms)
    (loader : UnitLoader) (f : LegibilityRecord)
    → (evaluate_decision env request_id action context kms loader).1 ≡ ok f
    → f.status ≡ permit
    → IsSigned kms f
unfolding evaluate_decision
permit-IsSigned env request_id action context kms loader f e h =
    let (loader', found) =
      load_graph env.query action.source_unit_id (or_text action.tenant_id "SYSTEM") env.source_read
        env.source_stored loader in
    evaluate_source-IsSigned env request_id action context kms loader' found f e h

module _ (env : Env) (request_id : String) (action : Action) (context : Context) (key : Kms)
    (loader loader' : UnitLoader) (source : AuthorityUnit)
    (loaded : load_graph env.query action.source_unit_id
        (or_text action.tenant_id "SYSTEM")
        env.source_read
        env.source_stored
        loader
      ≡ (loader', ok (some source))) where
  abbrev target : Option AuthorityUnit
  target = (load_target env action loader').1

  abbrev start : LegibilityRecord
  start = started env request_id action context source

  abbrev tiers : LegibilityRecord
  tiers = evaluate_tiers (some key) env.conditions_read context action source target start

  evaluate_loaded :
      (evaluate_decision env request_id action context (some key) loader).1
      ≡ ok (finalize (some key) tiers)
  unfolding evaluate_decision evaluate_source
  evaluate_loaded = rw loaded

  complete :
      Passes key env.conditions_read context action source target → tiers ≡ permitted start target
  complete p =
      evaluate_tiers_complete key env.conditions_read context action source target start
        (fresh env request_id action context source) p

  finalize-signed :
      (r : LegibilityRecord) (s : String)
      → key.sign r ≡ ok s
      → finalize (some key) r ≡ record r { signature = some s }
  unfolding finalize
  finalize-signed r s h = rw h

  -- Where the source unit is loaded and there is a key service, a request is permitted exactly when
  -- it passes the three tiers and the service signs the record that lists them: the pair has one
  -- domain or is overridden, the unit's domain is the request's or SYSTEM, the signature of its
  -- chain is genuine, and its conditions hold.
  pub permit_iff :
      ((f : LegibilityRecord) × ((evaluate_decision env request_id action context
            (some key)
            loader).1
          ≡ ok f)
        × (f.status ≡ permit))
      ↔ (Passes key env.conditions_read context action source target
          × ((s : String) × (key.sign (permitted start target) ≡ ok s)))
  permit_iff = (
    λ (f, e, h).
        let made : f ≡ finalize (some key) tiers = ground (arith, evaluate_loaded) in
        let permitted_status = sym (ap (λ (x : LegibilityRecord). x.status) made) ∙ h in
        let (s, signed, _, passed) = finalize-permit key tiers permitted_status in
        let p =
          evaluate_tiers_sound key env.conditions_read context action source target start passed in
        (p, (s, ap key.sign (sym (complete p)) ∙ signed)),
    λ (p, rest).
        let (s, signed) = rest in
        let done = finalize-signed (permitted start target) s signed in
        (
          record (permitted start target) { signature = some s },
          evaluate_loaded
              ∙ ap (λ (x : LegibilityRecord). ok (finalize (some key) x)) (complete p)
              ∙ ap ok done,
          refl,
        ),
  )
