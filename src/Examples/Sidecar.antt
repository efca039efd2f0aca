-- ===== src/Examples/Sidecar.antt =====
-- functions/verification-loop.js, functions/adapters/adapter-registry.js, functions/pep-gate.js and
-- functions/dll.js: an answer of high impact that the second model verifies, a plugin, a header, and a
-- context with a margin.
use sentinel_engine_sovereig.Base.{
  lookup, insert, ◌≤◌, true, false, Option, none, some, List, [], ◌∷◌, ok, length, if◌then◌else◌,
  ◌≡◌, refl,
}
use sentinel_engine_sovereig.SecurityManager.Patterns.{Text, codes, strip}
use sentinel_engine_sovereig.VerificationLoop.{
  Outside, Params, is_escalated, read_verdict, sanitize, user_content, launch_verification_sidecar,
}
use sentinel_engine_sovereig.VerificationResults.{
  Verdict, Loop, EscalationMark, escalation_failed_blocked,
}
use sentinel_engine_sovereig.VerificationLoop.Blocks.{launch-blocked}
use sentinel_engine_sovereig.VerificationLoop.AirGap.{launch-hides}
use sentinel_engine_sovereig.AdapterRegistry.{
  AdapterSpec, resolves, initial_registry, Call, registers, locks, get, run, step, register, lock,
}
use sentinel_engine_sovereig.PepGate.{
  Claims, Firebase, SentinelContext, tenant_of, role_of, verify_pep,
}
use sentinel_engine_sovereig.PepGate.Admission.{
  Bears, FirstSet, tenant_claims, role_claims, verify_pep-IsVerified,
}
use sentinel_engine_sovereig.Dll.{match_margin, least, margin_gate, dll_interceptor}
use sentinel_engine_sovereig.IntegrityController.{contains}
use sentinel_engine_sovereig.AuthorityGraph.Unit.{
  construct, validate_provenance, assign, validate_monotonic_attenuation,
}
use sentinel_engine_sovereig.AuthorityGraph.Arbitration.{
  evaluate_decision, evaluate_source, finalize, initial_record,
}
use sentinel_engine_sovereig.AuthorityGraph.Loader.{load_graph, load_fresh, hydrate, cache_key}
use sentinel_engine_sovereig.VerificationLoop.{settle, judge, arbitrate}
use sentinel_engine_sovereig.VerificationResults.{
  store_verification_result, ensure_verification_table,
}
use sentinel_engine_sovereig.Escalation.{create_escalation, escalation_of, prepare, record_in}
use sentinel_engine_sovereig.AuthorityMatrix.{
  resolve_authority, authority_of, classify_blast_radius, default_escalation, fallback_authority,
  first_row,
}
use sentinel_engine_sovereig.EvidenceLocker.{
  record_event, bind_param, check_in, not_null, references,
}
use sentinel_engine_sovereig.Base.{take_text}
use sentinel_engine_sovereig.EvidenceLocker.{get_sql, execute}
use sentinel_engine_sovereig.Examples.Units.{empty_loader}
use sentinel_engine_sovereig.Examples.Decisions.{env}
use sentinel_engine_sovereig.Examples.Escalations.{ids, engine}

abbrev verdict : Option EscalationMark → Verdict
verdict mark = record {
  is_object = true;
  is_verified = some true;
  discrepancies = some [];
  verification_notes = some "supported";
  escalation = mark;
}

abbrev pub outside : Outside
outside = record {
  tokenize = λ s. some "[HASHED_ID]";
  prosecutor = λ contents. some (codes "{}");
  parse = λ reply. some (verdict none);
  env = record env { query = λ unit_id tenant_id. ok [] };
  ids = ids;
  now = 10;
  ttl_seconds = 300;
  latency_ms = 7;
  stringify = λ v. "verified";
}

abbrev params : Params
params = record {
  request_id = "r-1";
  tenant_id = "acme";
  narrative = "the answer";
  source_context = "a row";
  impact_level = some "HIGH_IMPACT";
  query_classification = none;
  has_manager = true;
}

abbrev pub start : Loop
start = record { table_ensured = false; results = []; engine = engine []; loader = empty_loader }

escalated : is_escalated params ≡ true
unfolding is_escalated
escalated = refl

blocked :
    (launch_verification_sidecar outside params start).1
    ≡ some (verdict (some escalation_failed_blocked))
unfolding launch_verification_sidecar get_sql execute is_escalated lookup insert construct
    validate_provenance assign validate_monotonic_attenuation evaluate_decision evaluate_source
    load_graph load_fresh settle finalize create_escalation resolve_authority record_event
    initial_record hydrate cache_key authority_of classify_blast_radius default_escalation
    fallback_authority first_row take_text escalation_of prepare record_in bind_param check_in
    not_null references store_verification_result judge arbitrate ensure_verification_table
blocked = refl

launch-blocked_example :
    (v : Verdict) × (read_verdict outside
        (outside.prosecutor (user_content params.narrative (sanitize outside params)))
      ≡ some v)
    × (verdict (some escalation_failed_blocked)
        ≡ (if v.is_object then record v { escalation = some escalation_failed_blocked } else v))
launch-blocked_example =
    launch-blocked outside params start (verdict (some escalation_failed_blocked)) escalated blocked

launch-hides_example :
    (launch_verification_sidecar outside params start).2
    ≡ (launch_verification_sidecar outside
        (record params { source_context = "another row" })
        start).2
launch-hides_example = launch-hides outside params "another row" start refl refl refl refl

abbrev plugin : AdapterSpec
plugin = record {
  is_object = true;
  is_signal_aware = true;
  has_fetch = true;
  has_health_check = true;
  health_check = resolves;
}

-- what is registered after the lock is refused
abbrev calls : List Call
calls =
    registers "marine" plugin
    ∷ registers "broken" (record plugin { has_fetch = false })
    ∷ locks
    ∷ registers "late" plugin
    ∷ []

plugin_found : get "marine" (run calls initial_registry) ≡ some plugin
unfolding get run lookup step register lock insert
plugin_found = refl

nothing_late : get "late" (run calls initial_registry) ≡ none
unfolding get run lookup step register lock insert
nothing_late = refl

abbrev claims : Claims
claims = record {
  uid = some "u-1";
  tenant_id = some "acme";
  role = none;
  user_role = some "supervisor";
  app_metadata = none;
  user_metadata = none;
}

abbrev firebase : Firebase
firebase token = some claims

abbrev admitted : SentinelContext
admitted = record {
  tenant_id = "acme";
  user_role = "supervisor";
  auth_method = "FIREBASE_ADMIN";
  sub = "u-1";
  verified_at = "now";
}

admits : verify_pep firebase "now" (some (codes "Bearer 0123456789ab")) ≡ ok admitted
unfolding verify_pep strip tenant_of role_of
admits = refl

verify_pep-IsVerified_example :
    (token : Text) × (given : Claims) × Bears (some (codes "Bearer 0123456789ab")) token
    × (10 ≤ length token)
    × (firebase token ≡ some given)
    × FirstSet (tenant_claims given) "acme"
    × FirstSet (role_claims given) "supervisor"
verify_pep-IsVerified_example =
    verify_pep-IsVerified firebase "now" (some (codes "Bearer 0123456789ab")) admitted admits

abbrev own_case : Text → Text
own_case text = text

abbrev tight : Text
tight = codes "{\"margin\": 0.031}, {\"margin\":12}"

gate_closes :
    dll_interceptor own_case (codes "prices") tight
    ≡ some (margin_gate (record { units = 31; places = 3 }))
unfolding dll_interceptor contains strip match_margin least
gate_closes = refl

-- a negative margin is not matched, and the gate stays open
gate_stays_open : dll_interceptor own_case (codes "prices") (codes "{\"margin\": -0.5}") ≡ none
unfolding dll_interceptor contains strip match_margin least
gate_stays_open = refl
