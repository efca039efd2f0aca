-- ===== src/VerificationLoop.antt =====
-- functions/verification-loop.js: a second model checks the narrative of an answer against its
-- sources; its verdict goes through the arbitration, and what is refused is escalated. The model, the
-- parsing of its reply and tokenizePII are parameters.
pub mod Blocks
pub mod AirGap
use sentinel_engine_sovereig.Base.{
  ℕ, String, Bool, true, false, Option, none, some, List, [], ◌∷◌, Result, ok, err, ◌>>=◌, Table,
  lookup, insert, or_text, ◌==◌, ◌⧺◌, ◌&&◌, ◌||◌, not, if◌then◌else◌,
}
use sentinel_engine_sovereig.SecurityManager.Patterns.{Text}
use sentinel_engine_sovereig.Replies.{clean}
use sentinel_engine_sovereig.EvidenceLocker.{Db, DbFault, get_sql, execute}
use sentinel_engine_sovereig.AuthorityGraph.Unit as Units
use sentinel_engine_sovereig.AuthorityGraph.Unit.{UnitParams, Context, predicate, construct}
use sentinel_engine_sovereig.AuthorityGraph.Loader.{UnitLoader}
use sentinel_engine_sovereig.AuthorityGraph.Arbitration.{
  Env, Action, LegibilityRecord, evaluate_decision, is_permit,
}
use sentinel_engine_sovereig.Escalation.{
  Engine, EngineFault, Escalation, RejectionEvent, Ids, create_escalation,
}
use sentinel_engine_sovereig.VerificationResults.{
  EscalationMark, Verdict, VerificationRow, Loop, ensure_verification_table, upserted, binds,
  write_row, store_verification_result, Poll, get_verification_status, completed,
  escalation_failed_blocked, escalation_pending, failed_poll, pending_result,
}

pub record Params : Type 0 where
  pub request_id : String
  pub tenant_id : String
  pub narrative : String
  pub source_context : String
  pub impact_level : Option String
  pub query_classification : Option String
  -- whether there is a security manager
  pub has_manager : Bool

pub record Outside : Type 0 where
  -- tokenizePII for the tenant, `none` where it throws
  pub tokenize : String → Option String
  -- generateContent, from the contents; `none` is an error of the call
  pub prosecutor : String → Option Text
  -- JSON.parse, `none` where it throws or the value is null, whose fields cannot be read
  pub parse : Text → Option Verdict
  pub env : Env
  pub ids : Ids
  pub now : ℕ
  pub ttl_seconds : ℕ
  pub latency_ms : ℕ
  -- JSON.stringify of the verdict, for the engine
  pub stringify : Verdict → String

-- the sources that go to the prosecutor
unfoldable pub sanitize : Outside → Params → String
sanitize out p =
    if p.has_manager && not (p.source_context == "")
    then elim (out.tokenize p.source_context) [
      | some token ↦ token
      | none ↦ "[REDACTED: PII tokenization failed — sovereign air gap enforced]"
    ]
    else p.source_context

unfoldable pub user_content : String → String → String
user_content narrative sources =
    "GENERATED NARRATIVE:\n" ⧺ narrative ⧺ "\n\nSOURCE LOGS:\n" ⧺ sources

-- PROSECUTOR_SEMANTIC_CHECK: ctx.verdict.isVerified !== false
semantic_check : Context → Result Units.Fault Bool
semantic_check context = elim context.verdict [
  | none ↦ err Units.type_error
  | some v ↦ elim v.is_verified [ none ↦ ok true | some b ↦ ok b ]
]

unfoldable pub unit_id : Params → String
unit_id p = "VERIFICATION_UNIT_" ⧺ p.request_id

-- the parameters of sidecarActionUnit
unfoldable pub sidecar_unit : Params → UnitParams
unfolding semantic_check unit_id
sidecar_unit p = record {
  id = unit_id p;
  scope = record {
    decision_type = some "generate_response";
    domain = some (or_text p.query_classification "GENERAL");
    conditions = some (predicate semantic_check ∷ []);
    limits = none;
  };
  delegation = none;
  termination = none;
  provenance =
      some
        (record { chain = some ("ROOT" ∷ unit_id p ∷ []); verifiable = false; signature = none });
}

unfoldable pub sidecar_action : Params → Action
unfolding unit_id
sidecar_action p = record {
  source_unit_id = unit_id p;
  target_unit_id = none;
  domain = some (or_text p.query_classification "GENERAL");
  tenant_id = none;
  override_cross_domain = false;
  is_irreversible = false;
}

verdict_context : Verdict → Context
verdict_context v = record {
  keys = "verdict" ∷ [];
  verdict = some (record { is_verified = v.is_verified });
}

-- evaluateDecision with no key service
unfoldable pub arbitrate :
    Outside → Params → Verdict → Loop → UnitLoader × Result Units.Fault LegibilityRecord
unfolding verdict_context sidecar_action
arbitrate out p v s =
    evaluate_decision out.env p.request_id (sidecar_action p) (verdict_context v) none s.loader

-- a rejection of HIGH_IMPACT or UTILITY_CRITICAL, with a security manager
unfoldable pub is_escalated : Params → Bool
is_escalated p = p.has_manager && elim p.impact_level [
  | none ↦ false
  | some level ↦ level == "HIGH_IMPACT" || level == "UTILITY_CRITICAL"
]

-- verdict._escalation = { ... }, which does nothing to a value that is no object
abbrev pub set_escalation : EscalationMark → Verdict → Verdict
set_escalation m v = if v.is_object then record v { escalation = some m } else v

-- the verdict after the escalation, and the id of what was created
mark : Verdict → Result EngineFault Escalation → Verdict × Option String
mark v (ok row) = (
  set_escalation (escalation_pending row.escalation_id row.authority_id) v,
  some row.escalation_id,
)
mark v (err fault) = (set_escalation escalation_failed_blocked v, none)

unfoldable pub rejection : Outside → Params → Verdict → RejectionEvent
rejection out p v = record {
  request_id = p.request_id;
  tenant_id = p.tenant_id;
  narrative = some p.narrative;
  source_context = some p.source_context;
  prosecutor_verdict = out.stringify v;
  impact_level = or_text p.impact_level "";
  query_classification = or_text p.query_classification "SENSITIVE";
}

unfoldable pub escalate : Outside → Params → Verdict → Engine → Engine × Verdict × Option String
unfolding mark rejection
escalate out p v engine =
    let (engine', created) =
      create_escalation out.ids out.now out.ttl_seconds (rejection out p v) engine in
    let (marked, id) = mark v created in (engine', marked, id)

or_nothing : Option (List String) → List String
or_nothing none = []
or_nothing (some xs) = xs

row_of : Outside → Params → Verdict → Option String → VerificationRow
unfolding or_nothing
row_of out p v escalation = record {
  tenant_id = p.tenant_id;
  is_verified = v.is_verified;
  discrepancies = or_nothing v.discrepancies;
  verification_notes = or_text v.verification_notes "";
  latency_ms = out.latency_ms;
  escalation_id = escalation;
}

bound_verdict : Verdict → Option (Option Bool)
bound_verdict v = elim v.is_verified [ none ↦ none | some b ↦ some (some b) ]

-- the result that is stored, with what the escalation left
unfoldable pub store_verdict :
    Outside → Params → Loop → Engine × Verdict × Option String → Result DbFault (Loop × Verdict)
unfolding row_of bound_verdict store_verification_result
store_verdict out p s (engine', v, escalation) =
    store_verification_result p.request_id (row_of out p v escalation) (bound_verdict v)
      (record s { engine = engine' })
    >>= λ stored. ok (stored, v)

-- what follows the arbitration
unfoldable pub settle : Outside → Params → Verdict → Bool → Loop → Result DbFault (Loop × Verdict)
unfolding escalate store_verdict
settle out p v permitted s =
    store_verdict out p s
      (if not permitted && is_escalated p then escalate out p v s.engine else (s.engine, v, none))

-- The handler of the whole: the failure is stored, and no verdict is returned. An error of that is
-- only printed.
fail : Outside → Params → Loop → Loop × Option Verdict
fail out p s =
    elim (store_verification_result p.request_id
      (record {
        tenant_id = p.tenant_id;
        is_verified = none;
        discrepancies = "VERIFICATION_ERROR" ∷ [];
        verification_notes = "Sidecar execution failed.";
        latency_ms = out.latency_ms;
        escalation_id = none;
      })
      (some none) s) [ ok stored ↦ (stored, none) | err fault ↦ (s, none) ]

finish : Outside → Params → Loop → Result DbFault (Loop × Verdict) → Loop × Option Verdict
unfolding fail
finish out p s (ok (stored, v)) = (stored, some v)
finish out p s (err fault) = fail out p s

-- the state that an error of `settle` finds: the calls of the engine stay done
judged :
    Outside → Params → Verdict → Loop → Result Units.Fault LegibilityRecord → Loop × Option Verdict
unfolding fail finish
judged out p v s (err fault) = fail out p s
judged out p v s (ok record_) =
    finish out p
      (record s {
        engine =
            if not (is_permit record_.status) && is_escalated p
            then (escalate out p v s.engine).0
            else s.engine;
      })
      (settle out p v (is_permit record_.status) s)

-- from the reply of the prosecutor on
unfoldable pub judge : Outside → Params → Option Verdict → Loop → Loop × Option Verdict
unfolding judged arbitrate sidecar_unit
judge out p none s = fail out p s
judge out p (some v) s = elim (construct (sidecar_unit p) []) [
  | err fault ↦ fail out p s
  | ok unit ↦
      let (loader', result) = arbitrate out p v s in
      judged out p v (record s { loader = loader' }) result
]

unfoldable pub read_verdict : Outside → Option Text → Option Verdict
read_verdict out none = none
read_verdict out (some reply) = out.parse (clean reply)

-- launchVerificationSidecar: the state, the verdict that is returned, and what was sent to the model
unfoldable pub launch_verification_sidecar :
    Outside → Params → Loop → Loop × Option Verdict × Option String
unfolding judge fail read_verdict sanitize user_content ensure_verification_table
launch_verification_sidecar out p s = elim (ensure_verification_table s) [
  | err fault ↦ let (s', v) = fail out p s in (s', v, none)
  | ok s1 ↦
      let contents = user_content p.narrative (sanitize out p) in
      let (s', v) = judge out p (read_verdict out (out.prosecutor contents)) s1 in
      (s', v, some contents)
]
