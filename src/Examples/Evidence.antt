-- ===== src/Examples/Evidence.antt =====
-- functions/evidence-locker.js on a few writes and on a chain of three entries.
use sentinel_engine_sovereig.Base.{
  String, true, Option, none, some, List, [], ◌∷◌, ok, lookup, or_null, ◌==◌, eq_iff, ◌≡◌, refl,
  ◌≢◌, arith,
}
use sentinel_engine_sovereig.EvidenceLocker.{
  Entry, Db, Object, get_sql, bind_param, execute, not_null, check_in, references,
  create_arbitration_request, record_event, ChainRow, canonical, VerifyPayload, walk, verify_chain,
  at_entry,
}
use sentinel_engine_sovereig.EvidenceLocker.Records.{
  IsConsistent, Writes, request, event, start, more, Writes-IsConsistent,
}
use sentinel_engine_sovereig.EvidenceLocker.ChainWalk.{removal_is_found}

abbrev pub empty_db : Db
empty_db = record {
  configured = true;
  failing = none;
  binds_undefined = true;
  requests = [];
  entries = [];
  responses = [];
  findings = [];
}

abbrev db_1 : Db
db_1 = record empty_db { requests = "r-1" ∷ [] }

abbrev permit_event : Object
permit_event = ("request_id", "r-1") ∷ ("decision", "permit") ∷ ("signature", "sig") ∷ []

abbrev permit_entry : Entry
permit_entry = record {
  id = "e-1";
  request_id = some "r-1";
  decision = "permit";
  authority_unit_id = none;
  contract_evaluated_id = none;
  delegation_chain = none;
  invariants_checked = none;
  legibility_record = "{}";
  governance_finding = none;
  signature = "sig";
}

abbrev db_2 : Db
db_2 = record db_1 { entries = permit_entry ∷ [] }

requested : create_arbitration_request "r-1" empty_db ≡ ok (db_1, "r-1")
unfolding create_arbitration_request
requested = refl

recorded : record_event "e-1" permit_event db_1 ≡ ok (db_2, "e-1")
unfolding record_event bind_param not_null get_sql execute references check_in lookup
recorded = refl

empty_db-IsConsistent : IsConsistent empty_db
empty_db-IsConsistent = record { entries = tt; responses = tt; findings = tt }

abbrev two_writes : Writes empty_db db_2
two_writes =
    more (more start (request "r-1" "r-1" requested)) (event "e-1" "e-1" permit_event recorded)

Writes-IsConsistent_example : IsConsistent db_2
Writes-IsConsistent_example = Writes-IsConsistent empty_db-IsConsistent two_writes

abbrev row : String → Option String → ChainRow
row id previous = record {
  locker_id = id;
  request_id = "r-1";
  event_type = "PQ_BLOCK";
  tenant_id = "acme";
  payload = "{}";
  signature = id;
  previous_signature = previous;
}

-- a signature is genuine if it is the id of the entry
abbrev verify : VerifyPayload
verify c s = ok (c.locker_id == s)

abbrev pub chain : List ChainRow
chain = row "1" none ∷ row "2" (some "1") ∷ row "3" (some "2") ∷ []

chain_holds : (verify_chain verify (ok chain)).valid ≡ true
unfolding verify_chain walk canonical
chain_holds = refl

distinct : or_null (some "2") ≢ or_null (some "1")
distinct e = let same : some "2" ≡ some "1" = e in ground (arith, same, eq_iff "2" "1")

removal_is_found_example :
    ((verify_chain verify (ok (row "1" none ∷ row "3" (some "2") ∷ []))).valid ≢ true)
    × ((verify_chain verify (ok (row "1" none ∷ []))).valid ≡ true)
removal_is_found_example =
    removal_is_found verify (row "1" none ∷ []) (row "2" (some "1")) (row "3" (some "2")) []
      chain_holds distinct

abbrev cut : List ChainRow
cut = row "1" none ∷ row "3" (some "2") ∷ []

cut_broken : (verify_chain verify (ok cut)).broken_at ≡ some (at_entry "3")
unfolding verify_chain walk canonical
cut_broken = refl
