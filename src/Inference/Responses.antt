-- ===== src/Inference/Responses.antt =====
-- functions/index.js: the end of handleSentinelInference, from an answer that was not cached to the
-- response. The second model is asked before the response to a sensitive question, and beside it for
-- another one; a launch beside it is done to its end here. The checkpoint that is taken in the
-- background is left out.
use sentinel_engine_sovereig.Base.{
  String, Bool, true, false, Option, none, some, ◌==◌, ◌⧺◌, ◌&&◌, not, if◌then◌else◌,
}
use sentinel_engine_sovereig.Schemas.Values.{Json, Fields, str, is_truthy, get_field, set_field}
use sentinel_engine_sovereig.IntegrityController.{text_of}
use sentinel_engine_sovereig.VerificationLoop as Sidecar
use sentinel_engine_sovereig.VerificationLoop.{Params, launch_verification_sidecar}
use sentinel_engine_sovereig.VerificationResults.{
  EscalationMark, escalation_pending, escalation_failed_blocked, Verdict, Loop,
}
use sentinel_engine_sovereig.Inference.{Question, Delivered}

pub data Response : Type 0 where
  -- 202 with the mark, and 200 with the data, verificationStatus and verificationResult
  accepted_pending : EscalationMark → Response
  success : Fields → String → Option Verdict → Response

pub record Responded : Type 0 where
  pub loop : Loop
  pub launched : Bool
  pub response : Response

-- what the handler knows of the request
pub record Request : Type 0 where
  pub request_id : String
  pub tenant_id : String
  pub has_manager : Bool
  pub is_resilience_mode : Bool

abbrev is_set : Option Json → Bool
is_set none = false
is_set (some value) = is_truthy value

abbrev resilience_advisory : String
resilience_advisory =
    "[ADVISORY: Serving cached intelligence. Live verification currently unavailable due to reservoir connectivity.]\n\n"

-- the text before the narrative of a cached answer
unfoldable pub advised : Bool → Fields → Fields
advised resilient members =
    if resilient && is_set (get_field "narrative" members)
    then set_field "narrative" (str (resilience_advisory ⧺ text_of (get_field "narrative" members)))
        members
    else members

-- of the verdict of a sensitive question
verdict_status : Option Verdict → String
verdict_status none = "verification_failed"
verdict_status (some v) = elim v.is_verified [
  | none ↦ "verification_failed"
  | some verified ↦ if verified then "verified" else "HALLUCINATION_FLAGGED"
]

unfoldable pub verification_status : Fields → Bool → Option Verdict → String
unfolding verdict_status
verification_status members sensitive v =
    if is_set (get_field "_verificationPartial" members)
    then "PARTIAL"
    else if sensitive
    then verdict_status v
    else "pending"

unfoldable pub sidecar_payload : Request → Question → Delivered → Fields → Params
sidecar_payload r q d members = record {
  request_id = r.request_id;
  tenant_id = r.tenant_id;
  narrative = text_of (get_field "narrative" members);
  source_context = q.context_payload;
  impact_level = some d.impact_level;
  query_classification = some d.query_classification;
  has_manager = r.has_manager;
}

unfoldable pub answered : Fields → Bool → Option Verdict → Response
answered members sensitive v =
    success members (verification_status members sensitive v) (if sensitive then v else none)

-- the mark of a verdict, where it stops the response
pending_mark : Option Verdict → Option EscalationMark
pending_mark none = none
pending_mark (some v) = elim v.escalation [
  | none ↦ none
  | some mark ↦ elim mark [
    | escalation_pending id authority ↦ some (escalation_pending id authority)
    | escalation_failed_blocked ↦ none
  ]
]

after_verdict : Fields → Bool → Option Verdict → Response
unfolding answered pending_mark
after_verdict members sensitive v =
    if sensitive
    then elim (pending_mark v) [
      | some mark ↦ accepted_pending mark
      | none ↦ answered members true v
    ]
    else answered members false none

unfoldable pub respond_members :
    Sidecar.Outside → Request → Question → Delivered → Fields → Loop → Responded
unfolding after_verdict sidecar_payload answered
respond_members out r q d members s =
    let sensitive = d.query_classification == "SENSITIVE" in
    let (s', v, sent) = launch_verification_sidecar out (sidecar_payload r q d members) s in
    if not (q.context_payload == "") && is_set (get_field "narrative" members)
    then record { loop = s'; launched = true; response = after_verdict members sensitive v }
    else record { loop = s; launched = false; response = answered members sensitive none }

-- from `const { data } = swrData` to the response; data is an object
unfoldable pub respond :
    Sidecar.Outside → Request → Question → Delivered → Fields → Loop → Responded
unfolding respond_members advised
respond out r q d members s = respond_members out r q d (advised r.is_resilience_mode members) s
