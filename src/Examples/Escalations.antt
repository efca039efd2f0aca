-- ===== src/Examples/Escalations.antt =====
-- functions/escalation-engine.js on an engine with one open request, and on one with two late ones.
use sentinel_engine_sovereig.Base.{
  String, true, none, some, lookup, List, [], ◌∷◌, ◌++◌, ok, err, eq_iff, Memᴰ, ◌≡◌, ◌≢◌, ◌≤◌, refl,
  ◌⊎◌, arith,
}
use sentinel_engine_sovereig.EvidenceLocker.{get_sql, execute, record_event, bind_param, not_null}
use sentinel_engine_sovereig.Escalation.{
  pending, EngineFault, EvidenceFragment, Escalation, Engine, Ids, RejectionEvent, prepare,
  create_escalation, record_in,
}
use sentinel_engine_sovereig.Escalation.Refusal.{create_escalation_throws}
use sentinel_engine_sovereig.Escalation.Resolve.{
  Verify, Resolution, authenticate, find_escalation, check_resolution, new_status, conclude,
  resolved, update_row, apply_resolution, resolve_escalation,
}
use sentinel_engine_sovereig.Escalation.Resolve.Laws.{
  MayResolve, written, resolve_escalation_throws,
}
use sentinel_engine_sovereig.Escalation.Expire.{
  update_where, record_blocked, expire_stale_escalations,
}
use sentinel_engine_sovereig.Escalation.Expire.Deadlines.{expire-IsClosed, expire-starves}
use sentinel_engine_sovereig.Escalation.Life.{done, next, resolve, expire}
use sentinel_engine_sovereig.Escalation.Life.Settled.{Reach-IsSettled}
use sentinel_engine_sovereig.Escalation.Life.Release.{IsRelease, Step-IsRelease}
use sentinel_engine_sovereig.Escalation.Race.{second_overwrites}
use sentinel_engine_sovereig.Examples.Evidence.{empty_db}

abbrev fragment : EvidenceFragment
fragment = record {
  ai_intent = some "the answer";
  pristine_data = none;
  prosecutor_logic = "unsupported";
  blast_radius = "REGIONAL";
  impact_level = "HIGH_IMPACT";
  query_classification = "OPERATIONAL";
}

abbrev request : String → String → Escalation
request id impact = record {
  escalation_id = id;
  request_id = "r-1";
  tenant_id = "acme";
  authority_id = "ann";
  status = pending;
  impact_level = impact;
  blast_radius = "REGIONAL";
  evidence_fragment = fragment;
  ttl_expires_at = 1000;
  resolved_by = none;
  coaching_annotation = none;
  webauthn_assertion_id = none;
}

abbrev pub engine : List Escalation → Engine
engine rows = record {
  locker = empty_db;
  authorities = [];
  matrix_failing = none;
  registry = none;
  rows = rows;
  sent = [];
}

abbrev waiting : Escalation
waiting = request "x-1" "HIGH_IMPACT"

abbrev one_open : Engine
one_open = engine (waiting ∷ [])

abbrev two_late : Engine
two_late = engine (waiting ∷ request "x-2" "UTILITY_CRITICAL" ∷ [])

-- a provider that accepts every key
abbrev verify : Verify
verify id assertion = ok true

abbrev pub ids : Ids
ids = record { escalation = "x-9"; first = "e-1"; second = "e-2"; assertion = "w-1" }

abbrev event : RejectionEvent
event = record {
  request_id = "r-1";
  tenant_id = "acme";
  narrative = some "the answer";
  source_context = none;
  prosecutor_verdict = "unsupported";
  impact_level = "HIGH_IMPACT";
  query_classification = "OPERATIONAL";
}

abbrev decision : String → String → Resolution
decision text who = record {
  escalation_id = "x-1";
  decision = text;
  authority_id = who;
  coaching_annotation = none;
  webauthn_assertion = some "assertion";
}

abbrev release : Resolution
release = decision "OVERRIDE_RELEASE" "ann"

abbrev block : Resolution
block = decision "CONFIRM_REJECTION" "bob"

create_escalation_throws_example :
    (fault : EngineFault) × ((create_escalation ids 10 300 event one_open ≡ (one_open, err fault))
      ⊎ ((row : Escalation) × (prepare ids 10 300 event one_open ≡ ok row)
          × (create_escalation ids 10 300 event one_open
              ≡ (record one_open { rows = one_open.rows ++ row ∷ [] }, err fault))))
create_escalation_throws_example = create_escalation_throws ids 10 300 event one_open

resolve_escalation_throws_example :
    (fault : EngineFault) × ((resolve_escalation (some verify) 10 "w-1" "e-1" "e-2" release one_open
        ≡ (one_open, err fault))
      ⊎ ((e : Escalation) × MayResolve (some verify) 10 release one_open e
          × (resolve_escalation (some verify) 10 "w-1" "e-1" "e-2" release one_open
              ≡ (written "w-1" release one_open, err fault))))
resolve_escalation_throws_example =
    resolve_escalation_throws (some verify) 10 "w-1" "e-1" "e-2" release one_open

release_checked : check_resolution (some verify) 10 release one_open ≡ ok waiting
unfolding check_resolution authenticate find_escalation get_sql execute
release_checked = refl

block_checked : check_resolution (some verify) 10 block one_open ≡ ok waiting
unfolding check_resolution authenticate find_escalation get_sql execute
block_checked = refl

second_overwrites_example :
    (found : Escalation) × (find_escalation "x-1"
        (apply_resolution "w-2" "e-3" "e-4" block waiting
          (apply_resolution "w-1" "e-1" "e-2" release waiting one_open).0).0.rows
      ≡ some found)
    × (found.status ≡ new_status block.decision)
    × (found.resolved_by ≡ some "bob")
second_overwrites_example =
    second_overwrites (some verify) 10 "w-1" "e-1" "e-2" "w-2" "e-3" "e-4" release block one_open
      waiting waiting refl refl release_checked block_checked

-- of two requests, the one that is late is blocked and the other waits on
abbrev in_time : Escalation
in_time = record (request "x-3" "HIGH_IMPACT") { ttl_expires_at = 3000 }

abbrev one_late : Engine
one_late = engine (waiting ∷ in_time ∷ [])

in_time-waits : Memᴰ in_time (expire_stale_escalations (λ n. "e") "2025-01-01" 2000 one_late).0.rows
unfolding expire_stale_escalations update_where record_blocked record_event bind_param not_null
    lookup get_sql execute record_in
in_time-waits = Memᴰ.tail (Memᴰ.head refl)

high_impact : in_time.impact_level ≢ "UTILITY_CRITICAL"
high_impact e = ground (arith, (eq_iff "HIGH_IMPACT" "UTILITY_CRITICAL").1 e)

expire-IsClosed_example : 2000 ≤ 3000
expire-IsClosed_example =
    expire-IsClosed (λ n. "e") "2025-01-01" 2000 one_late in_time refl refl in_time-waits refl
      high_impact

waiting-is_high : waiting.impact_level ≢ "UTILITY_CRITICAL"
waiting-is_high e = ground (arith, (eq_iff "HIGH_IMPACT" "UTILITY_CRITICAL").1 e)

abbrev second : Escalation
second = request "x-2" "UTILITY_CRITICAL"

expire-starves_example :
    Memᴰ second (expire_stale_escalations (λ n. "e") "2025-01-01" 2000 two_late).0.rows
expire-starves_example =
    expire-starves (λ n. "e") "2025-01-01" 2000 two_late waiting second refl refl (Memᴰ.head refl)
      refl waiting-is_high (omega arith) (Memᴰ.tail (Memᴰ.head refl)) refl

-- the state after a release, and then a run of the timer and a late decision
abbrev released : Engine
released = (resolve_escalation (some verify) 10 "w-1" "e-1" "e-2" release one_open).0

abbrev later : Engine
later = (expire_stale_escalations (λ n. "e") "2025-01-01" 2000 released).0

abbrev last : Engine
last = (resolve_escalation (some verify) 2010 "w-2" "e-3" "e-4" block later).0

x-1_released : find_escalation "x-1" released.rows ≡ some (resolved "w-1" release waiting)
unfolding resolve_escalation check_resolution authenticate find_escalation get_sql execute
    apply_resolution conclude record_in update_row resolved record_event bind_param not_null lookup
x-1_released = refl

Reach-IsSettled_example : find_escalation "x-1" last.rows ≡ some (resolved "w-1" release waiting)
unfolding resolved
Reach-IsSettled_example =
    Reach-IsSettled (some verify) "x-1" released last (resolved "w-1" release waiting)
      (next released later last (expire (λ n. "e") "2025-01-01" 2000 released)
        (next later last last (resolve 2010 "w-2" "e-3" "e-4" block later) (done last)))
      x-1_released refl

Step-IsRelease_example : IsRelease (some verify) "x-1" waiting release 10
unfolding resolved find_escalation
Step-IsRelease_example =
    Step-IsRelease (some verify) "x-1" waiting (resolved "w-1" release waiting) refl one_open
      released (resolve 10 "w-1" "e-1" "e-2" release one_open) refl refl x-1_released
