-- ===== src/EvidenceLocker/Callers.antt =====
-- functions/escalation-engine.js and functions/rollback-engine.js: the object that both files pass to
-- recordEvent of functions/evidence-locker.js.
use sentinel_engine_sovereig.Base.{
  String, Option, none, some, [], ◌∷◌, ok, lookup, ◌≡◌, refl, ◌≢◌, inl,
}
use sentinel_engine_sovereig.EvidenceLocker.{Db, Object, record_event, event_types}
use sentinel_engine_sovereig.EvidenceLocker.Records.{record_event_refused}

-- a field that is undefined is not there
abbrev pub optional_field : String → Option String → Object → Object
optional_field name none rest = rest
optional_field name (some v) rest = (name, v) ∷ rest

-- The fields, with the type EVENT_TYPES.NAME.
abbrev pub event_object : String → String → String → String → Option String → Object
event_object request_id type_name tenant_id payload authority =
    ("requestId", request_id)
    ∷ ("tenantId", tenant_id)
    ∷ ("payload", payload)
    ∷ optional_field "responsibleAuthorityId" authority
        (optional_field "eventType" (lookup type_name event_types) [])

undecided :
    (authority type_value : Option String)
    → lookup "decision" (
        optional_field "responsibleAuthorityId" authority
          (optional_field "eventType" type_value []))
      ≡ none
unfolding lookup
undecided none none = refl
undecided none (some t) = refl
undecided (some a) none = refl
undecided (some a) (some t) = refl

decision-event_object :
    (request_id type_name tenant_id payload : String) (authority : Option String)
    → lookup "decision" (event_object request_id type_name tenant_id payload authority) ≡ none
unfolding lookup
decision-event_object request_id type_name tenant_id payload authority =
    undecided authority (lookup type_name event_types)

-- No such object is ever recorded: it has no field `decision`.
pub event_object-refused :
    (id request_id type_name tenant_id payload : String) (authority : Option String) (db : Db)
    (r : Db × String)
    → record_event id (event_object request_id type_name tenant_id payload authority) db ≢ ok r
event_object-refused id request_id type_name tenant_id payload authority db r =
    record_event_refused id (event_object request_id type_name tenant_id payload authority) db r
      (inl (decision-event_object request_id type_name tenant_id payload authority))
