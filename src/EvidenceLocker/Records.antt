-- ===== src/EvidenceLocker/Records.antt =====
-- functions/evidence-locker.js: what a recorded event leaves in the tables, and which events cannot
-- be recorded.
use mathlib.Core.Path.{subst}
use mathlib.Core.Option.{get_or}
use sentinel_engine_sovereig.Base.{
  String, true, none, some, List, [], ◌∷◌, ◌++◌, Result, ok, err, lookup, or_text, includes, All,
  All-map, All-append, ◌≡◌, refl, ◌≢◌, ◌⊎◌, ap, sym, arith, inl, inr,
}
use sentinel_engine_sovereig.EvidenceLocker.{
  create_arbitration_request, DbFault, Entry, Response, Finding, finding_actions,
  record_governance_finding, Db, Object, ChainRow, get_sql, bind_param, execute, not_null, check_in,
  references, locker_decisions, response_decisions, record_event, record_arbitration_response,
  insert_response, get_last_verified_pristine,
}

-- What the constraints of `evidence_locker` and `arbitration_responses` ask of a row.
abbrev pub EntryHolds : List String → Entry → Type 0
EntryHolds requests e =
    (includes locker_decisions e.decision ≡ true)
    × ((id : String) → e.request_id ≡ some id → includes requests id ≡ true)

abbrev pub ResponseHolds : List String → Response → Type 0
ResponseHolds requests r =
    (includes response_decisions r.decision ≡ true) × (includes requests r.request_id ≡ true)

abbrev pub FindingHolds : List String → Finding → Type 0
FindingHolds requests f =
    (includes finding_actions f.action ≡ true) × (includes requests f.request_id ≡ true)

-- Every decision and every action is one of those allowed, and every request that is referred to exists.
pub record IsConsistent (db : Db) : Type 0 where
  pub entries : All (EntryHolds db.requests) db.entries
  pub responses : All (ResponseHolds db.requests) db.responses
  pub findings : All (FindingHolds db.requests) db.findings

-- An event that is recorded names an allowed decision and a signature, and any request that it
-- names exists; exactly one entry is added, which carries them, and nothing else changes.
record_event_accepted :
    (id : String) (event : Object) (db db' : Db) (id' : String)
    → record_event id event db ≡ ok (db', id')
    → (e : Entry) × (lookup "decision" event ≡ some e.decision)
      × (lookup "signature" event ≡ some e.signature)
      × (lookup "request_id" event ≡ e.request_id)
      × EntryHolds db.requests e
      × (db' ≡ record db { entries = db.entries ++ e ∷ [] })
unfolding record_event bind_param not_null get_sql execute references check_in
record_event_accepted id event db db' id' h = (
  record {
    id = id;
    request_id = lookup "request_id" event;
    decision = get_or (lookup "decision" event) "";
    authority_unit_id = lookup "authority_unit_id" event;
    contract_evaluated_id = lookup "contract_evaluated_id" event;
    delegation_chain = lookup "delegation_chain" event;
    invariants_checked = lookup "invariants_checked" event;
    legibility_record = or_text (lookup "legibility_record" event) "{}";
    governance_finding = lookup "governance_finding" event;
    signature = get_or (lookup "signature" event) "";
  },
  ground arith,
  ground arith,
  refl,
  (ground arith, λ r e. ground arith),
  ground arith,
)

-- An event that lacks a decision or a signature is refused, whatever else it holds: by the client,
-- by the server, or by a column that may not be NULL.
pub record_event_refused :
    (id : String) (event : Object) (db : Db) (r : Db × String)
    → (lookup "decision" event ≡ none) ⊎ (lookup "signature" event ≡ none)
    → record_event id event db ≢ ok r
record_event_refused id event db (db', id') h e =
    let (entry, d, s, _, _, _) = record_event_accepted id event db db' id' e in ground arith

includes-append :
    (xs ys : List String) (a : String) → includes xs a ≡ true → includes (xs ++ ys) a ≡ true
includes-append [] ys a h = ground arith
includes-append (x ∷ xs) ys a h = ground (arith, includes-append xs ys a)

pub record_event-IsConsistent :
    (id : String) (event : Object) (db db' : Db) (id' : String)
    → IsConsistent db
    → record_event id event db ≡ ok (db', id')
    → IsConsistent db'
record_event-IsConsistent id event db db' id' c h =
    let (e, _, _, _, holds, made) = record_event_accepted id event db db' id' h in
    subst IsConsistent (sym made) (record {
      entries = All-append (EntryHolds db.requests) db.entries (e ∷ []) c.entries (holds, tt);
      responses = c.responses;
      findings = c.findings;
    })

pub create_arbitration_request-IsConsistent :
    (id : String) (db db' : Db) (id' : String)
    → IsConsistent db
    → create_arbitration_request id db ≡ ok (db', id')
    → IsConsistent db'
unfolding create_arbitration_request
create_arbitration_request-IsConsistent id db db' id' c h =
    let more = db.requests ++ id ∷ [] in
    let made : record db { requests = more } ≡ db' = ground arith in
    subst IsConsistent made (record {
      entries =
          All-map {Q = EntryHolds more}
            (λ e p. (p.0, λ r q. includes-append db.requests (id ∷ []) r (p.1 r q))) db.entries
            c.entries;
      responses =
          All-map {Q = ResponseHolds more}
            (λ e p. (p.0, includes-append db.requests (id ∷ []) e.request_id p.1)) db.responses
            c.responses;
      findings =
          All-map {Q = FindingHolds more}
            (λ f p. (p.0, includes-append db.requests (id ∷ []) f.request_id p.1)) db.findings
            c.findings;
    })

insert_response-accepted :
    (id : String) (r : Response) (db db' : Db) (id' : String)
    → insert_response id r db ≡ ok (db', id')
    → (db' ≡ record db { responses = db.responses ++ r ∷ [] })
      × (id' ≡ id)
      × ResponseHolds db.requests r
unfolding insert_response
insert_response-accepted id r db db' id' h =
    (ground arith, ground arith, (ground arith, ground arith))

-- A response is stored, with an allowed decision for a request that exists, or the tables stay as
-- they are and the caller is told to deny.
pub record_arbitration_response_cases :
    (id : String) (r : Response) (db : Db)
    → ((record_arbitration_response id r db
          ≡ (record db { responses = db.responses ++ r ∷ [] }, id))
        × ResponseHolds db.requests r)
      ⊎ (record_arbitration_response id r db ≡ (db, "DENY_SYSTEM_FAILURE"))
unfolding record_arbitration_response
record_arbitration_response_cases id r db = go (insert_response id r db) refl
  where
    go :
        (x : Result DbFault (Db × String))
        → insert_response id r db ≡ x
        → ((record_arbitration_response id r db
              ≡ (record db { responses = db.responses ++ r ∷ [] }, id))
            × ResponseHolds db.requests r)
          ⊎ (record_arbitration_response id r db ≡ (db, "DENY_SYSTEM_FAILURE"))
    go (ok (db', id')) e =
        let (made, same, holds) = insert_response-accepted id r db db' id' e in
        inl (ground arith, holds)
    go (err fault) e = inr (ground arith)

record_arbitration_response-IsConsistent :
    (id : String) (r : Response) (db : Db)
    → IsConsistent db
    → IsConsistent (record_arbitration_response id r db).0
record_arbitration_response-IsConsistent id r db c =
    elim (record_arbitration_response_cases id r db) [
      | inl (made, holds) ↦ rw made (record {
        entries = c.entries;
        responses =
            All-append (ResponseHolds db.requests) db.responses (r ∷ []) c.responses (holds, tt);
        findings = c.findings;
      })
      | inr same ↦ rw same c
    ]

record_governance_finding-IsConsistent :
    (id : String) (f : Finding) (db db' : Db) (id' : String)
    → IsConsistent db
    → record_governance_finding id f db ≡ ok (db', id')
    → IsConsistent db'
unfolding record_governance_finding
record_governance_finding-IsConsistent id f db db' id' c h =
    let made : record db { findings = db.findings ++ f ∷ [] } ≡ db' = ground arith in
    let holds : FindingHolds db.requests f = (ground arith, ground arith) in
    subst IsConsistent made (record {
      entries = c.entries;
      responses = c.responses;
      findings = All-append (FindingHolds db.requests) db.findings (f ∷ []) c.findings (holds, tt);
    })

-- The four writes, in any order and with any arguments.
pub data Write : Db → Db → Type 0 where
  request :
      {db db' : Db} (id id' : String)
      → create_arbitration_request id db ≡ ok (db', id')
      → Write db db'
  event :
      {db db' : Db} (id id' : String) (o : Object)
      → record_event id o db ≡ ok (db', id')
      → Write db db'
  response :
      {db db' : Db} (id id' : String) (r : Response)
      → record_arbitration_response id r db ≡ (db', id')
      → Write db db'
  finding :
      {db db' : Db} (id id' : String) (f : Finding)
      → record_governance_finding id f db ≡ ok (db', id')
      → Write db db'

pub data Writes (db : Db) : Db → Type 0 where
  start : Writes db db
  more : {db' db'' : Db} → Writes db db' → Write db' db'' → Writes db db''

Write-IsConsistent : {db db' : Db} → Write db db' → IsConsistent db → IsConsistent db'
Write-IsConsistent (request id id' h) c = create_arbitration_request-IsConsistent id _ _ id' c h
Write-IsConsistent (event id id' o h) c = record_event-IsConsistent id o _ _ id' c h
Write-IsConsistent (finding id id' f h) c = record_governance_finding-IsConsistent id f _ _ id' c h
Write-IsConsistent {db} (response id id' r h) c =
    subst IsConsistent (ap (λ (p : Db × String). p.0) h)
      (record_arbitration_response-IsConsistent id r db c)

-- After any sequence of requests, events, responses and findings, whatever their arguments, every
-- stored decision and action is an allowed one and every request that is referred to exists, where
-- this held before.
pub Writes-IsConsistent : {db db' : Db} → IsConsistent db → Writes db db' → IsConsistent db'
Writes-IsConsistent c start = c
Writes-IsConsistent c (more w s) = Write-IsConsistent s (Writes-IsConsistent c w)

-- No checkpoint is ever found: the type that is looked for is none of those registered.
pub no_pristine_checkpoint :
    (db : Db) (rows : List ChainRow) (r : ChainRow)
    → get_last_verified_pristine db rows ≢ ok (some r)
unfolding get_last_verified_pristine lookup
no_pristine_checkpoint db rows r h = ground arith
