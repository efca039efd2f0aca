-- ===== src/Examples/Decisions.antt =====
-- functions/authority-graph/arbitration.js and functions/authority-graph/reduction.js on the desk of
-- Units: a request within its domain, and the reduction of the desk.
use sentinel_engine_sovereig.Base.{
  String, true, false, none, some, [], ◌∷◌, ok, lookup, insert, or_text, ◌≡◌, refl, ◌↔◌, ◌⧺◌, inl,
}
use sentinel_engine_sovereig.AuthorityGraph.Unit.{
  Context, assign, construct, validate_provenance, validate_monotonic_attenuation,
  evaluate_conditions,
}
use sentinel_engine_sovereig.AuthorityGraph.Loader.{
  UnitLoader, unit_params, hydrate, load_fresh, load_graph, cache_key,
}
use sentinel_engine_sovereig.AuthorityGraph.Arbitration.{
  permit, Kms, Action, Env, LegibilityRecord, initial_record, load_target, evaluate_decision,
}
use sentinel_engine_sovereig.AuthorityGraph.Arbitration.Permits.{Passes, permitted}
use sentinel_engine_sovereig.AuthorityGraph.Arbitration.Decision.{
  IsSigned, started, permit-IsSigned, permit_iff,
}
use sentinel_engine_sovereig.Examples.Units.{desk, desk_query, empty_loader}

abbrev kms : Kms
kms = record { sign = λ r. ok ("signature of " ⧺ r.decision_id); verify = λ chain s. ok true }

abbrev pub env : Env
env = record {
  query = desk_query;
  decision_id = "d-1";
  timestamp = "2025-01-01";
  source_read = 10;
  source_stored = 20;
  target_read = 30;
  target_stored = 40;
  conditions_read = 50;
}

abbrev action : Action
action = record {
  source_unit_id = "desk";
  target_unit_id = none;
  domain = some "FINANCE";
  tenant_id = some "acme";
  override_cross_domain = false;
  is_irreversible = true;
}

abbrev context : Context
context = record { keys = "ledger" ∷ []; verdict = none }

abbrev loaded_loader : UnitLoader
loaded_loader = record { cache = ("acme:desk", record { timestamp = 20; unit = some desk }) ∷ [] }

desk_loads :
    load_graph env.query action.source_unit_id
      (or_text action.tenant_id "SYSTEM")
      env.source_read
      env.source_stored
      empty_loader
    ≡ (loaded_loader, ok (some desk))
unfolding load_graph load_fresh hydrate construct insert lookup validate_provenance assign
    unit_params validate_monotonic_attenuation cache_key
desk_loads = refl

permit_iff_example :
    ((f : LegibilityRecord) × ((evaluate_decision env "r-1" action context
          (some kms)
          empty_loader).1
        ≡ ok f)
      × (f.status ≡ permit))
    ↔ (Passes kms 50 context action desk (load_target env action loaded_loader).1
        × ((s : String) × (kms.sign (
                permitted
                  (started env "r-1" action context desk)
                  (load_target env action loaded_loader).1)
              ≡ ok s)))
permit_iff_example =
    permit_iff env "r-1" action context kms empty_loader loaded_loader desk desk_loads

desk-Passes : Passes kms 50 context action desk (load_target env action loaded_loader).1
unfolding load_target evaluate_conditions
desk-Passes = record {
  same_pair = tt;
  own_domain = inl refl;
  genuine = λ s e ne. refl;
  conditions_hold = refl;
}

desk_permitted :
    (f : LegibilityRecord) × ((evaluate_decision env "r-1" action context (some kms) empty_loader).1
      ≡ ok f)
    × (f.status ≡ permit)
unfolding load_target initial_record
desk_permitted =
    (permit_iff env "r-1" action context kms empty_loader loaded_loader desk desk_loads).1
      (desk-Passes, ("signature of d-1", refl))

permit-IsSigned_example : IsSigned (some kms) desk_permitted.0
permit-IsSigned_example =
    permit-IsSigned env "r-1" action context (some kms) empty_loader desk_permitted.0
      desk_permitted.1 desk_permitted.2
