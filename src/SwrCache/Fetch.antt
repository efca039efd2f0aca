-- ===== src/SwrCache/Fetch.antt =====
-- functions/swr-cache.js: getCached, setCached and swrFetch. The reply of Redis to a GET is an
-- argument: `none` is a miss, a fault of the call, or a text that is no envelope. swrFetch is in two
-- parts, between which other requests can run: what it does until it awaits fresh data, and what
-- follows.
pub mod Serves
use sentinel_engine_sovereig.Base.{
  ℕ, String, Bool, true, false, Option, none, some, List, [], ◌∷◌, ◌++◌, ◌*◌, ◌-◌, not, ◌&&◌,
  Result, ok, err, truthy, ◌⧺◌, ltb, if◌then◌else◌,
}
use sentinel_engine_sovereig.SwrCache.Breaker.{
  BreakerState, CircuitBreaker, record_success, record_failure, allow_request, is_open,
}
use sentinel_engine_sovereig.SwrCache.Lifetime.{Runtime, classify_query_ttl, cache_key}

-- The field that the source calls data is `payload` here.
-- an answer: its narrative, and the text of the rest of it
pub record Answer : Type 0 where
  pub narrative : Option String
  pub rest : String

-- what setCached writes
pub record Envelope : Type 0 where
  pub payload : Answer
  pub cached_at : ℕ
  pub category : String
  pub ttl : ℕ

-- SET key envelope EX seconds
pub record SetCommand : Type 0 where
  pub key : String
  pub envelope : Envelope
  pub grace_ttl : ℕ

-- what getCached returns
pub record Cached : Type 0 where
  pub payload : Answer
  pub category : String
  pub cached_at : ℕ
  pub is_stale : Bool

pub data CacheStatus : Type 0 where
  stale_circuit_open fresh_hit stale_revalidating miss_fetched stale_fallback : CacheStatus
  circuit_open_no_cache : CacheStatus

-- the answer, or the advisory that names the state of the circuit
pub data Served : Type 0 where
  answer : Answer → Served
  advisory : BreakerState → Served

pub record Fetched : Type 0 where
  pub payload : Served
  pub cache_status : CacheStatus
  pub is_resilience_mode : Bool

-- The breaker, the commands that were sent to Redis, and the queries that are fetched in the
-- background.
pub record Swr : Type 0 where
  pub breaker : CircuitBreaker
  pub sent : List SetCommand
  pub background : List String

abbrev advisory_text : String
advisory_text =
    "\n\n**ADVISORY: Serving cached intelligence. Live verification currently unavailable due to reservoir connectivity.**"

-- cached.data.narrative += …, where there is a narrative
abbrev pub advise : Answer → Answer
advise a = elim a.narrative [
  | none ↦ a
  | some text ↦
      if truthy (some text) then record a { narrative = some (text ⧺ advisory_text) } else a
]

abbrev pub is_stale_at : Runtime → String → ℕ → Envelope → Bool
is_stale_at runtime query now e =
    ltb ((classify_query_ttl runtime query).1 * 1000) (now - e.cached_at)

unfoldable pub get_cached : Runtime → String → ℕ → CircuitBreaker → Option Envelope → Option Cached
get_cached runtime query now breaker none = none
get_cached runtime query now breaker (some e) =
    let stale = is_stale_at runtime query now e in
    some (record {
      payload = if stale && is_open breaker then advise e.payload else e.payload;
      category = e.category;
      cached_at = e.cached_at;
      is_stale = stale;
    })

unfoldable pub set_cached : Runtime → String → String → ℕ → Answer → Swr → Swr
set_cached runtime tenant_id query now payload s =
    let (category, ttl) = classify_query_ttl runtime query in
    record s {
      sent =
          s.sent
          ++ record {
            key = cache_key runtime tenant_id query;
            envelope = record {
              payload = payload;
              cached_at = now;
              category = category;
              ttl = ttl;
            };
            grace_ttl = ttl * 2;
          }
            ∷ [];
    }

abbrev serve : Answer → CacheStatus → Bool → Fetched
serve payload status resilience = record {
  payload = answer payload;
  cache_status = status;
  is_resilience_mode = resilience;
}

-- What the first part ends in: an answer, or the wait for fresh data.
pub data Decision : Type 0 where
  served : Fetched → Decision
  awaits : Option Cached → Decision

-- 5. and the advisory
unfoldable pub fetch_or_advise : ℕ → Option Cached → Swr → Swr × Decision
fetch_or_advise now cached s =
    let (breaker, allowed) = allow_request now s.breaker in
    let s' = record s { breaker = breaker } in
    if allowed then (s', awaits cached) else (
      s',
      served (record {
        payload = advisory breaker.state;
        cache_status = circuit_open_no_cache;
        is_resilience_mode = true;
      }),
    )

-- 4. where the cached answer is stale
unfoldable pub revalidate : String → ℕ → ℕ → Cached → Swr → Swr × Decision
unfolding fetch_or_advise
revalidate query now now' cached s =
    let (breaker, allowed) = allow_request now s.breaker in
    let s' = record s { breaker = breaker } in
    if allowed
    then (
      record s' { background = s'.background ++ query ∷ [] },
      served (serve cached.payload stale_revalidating false),
    )
    else fetch_or_advise now' (some cached) s'

-- 2. to 5.: `now` and `now'` are the times of the two calls of allowRequest
unfoldable pub decide : String → ℕ → ℕ → Option Cached → Swr → Swr × Decision
unfolding revalidate fetch_or_advise
decide query now now' none s = fetch_or_advise now' none s
decide query now now' (some cached) s =
    if is_open s.breaker
    then (s, served (serve cached.payload stale_circuit_open true))
    else if not cached.is_stale
    then (s, served (serve cached.payload fresh_hit false))
    else revalidate query now now' cached s

-- what follows the wait, in the state of that time
unfoldable pub settle :
    {E : Type 0}
    → Runtime
    → String
    → String
    → ℕ
    → Option Cached
    → Result E Answer
    → Swr
    → Swr × Result E Fetched
settle runtime tenant_id query now cached (ok payload) s = (
  set_cached runtime tenant_id query now payload (record s { breaker = record_success s.breaker }),
  ok (serve payload miss_fetched false),
)
settle runtime tenant_id query now none (err fault) s =
    (record s { breaker = record_failure now s.breaker }, err fault)
settle runtime tenant_id query now (some cached) (err fault) s = (
  record s { breaker = record_failure now s.breaker },
  ok (serve cached.payload stale_fallback true),
)

-- the handlers of the fetch in the background
unfoldable pub settle_background :
    {E : Type 0} → Runtime → String → String → ℕ → Result E Answer → Swr → Swr
settle_background runtime tenant_id query now (ok payload) s =
    set_cached runtime tenant_id query now payload (record s { breaker = record_success s.breaker })
settle_background runtime tenant_id query now (err fault) s = record s {
  breaker = record_failure now s.breaker;
}

-- the times at which one call reads the clock
pub record Times : Type 0 where
  pub read : ℕ
  pub first : ℕ
  pub second : ℕ
  pub settled : ℕ

conclude_fetch :
    {E : Type 0}
    → Runtime
    → String
    → String
    → ℕ
    → Result E Answer
    → Swr × Decision
    → Swr × Result E Fetched
unfolding settle
conclude_fetch runtime tenant_id query now fresh (s, served f) = (s, ok f)
conclude_fetch runtime tenant_id query now fresh (s, awaits cached) =
    settle runtime tenant_id query now cached fresh s

-- swrFetch where nothing else runs during the wait
unfoldable pub swr_fetch :
    {E : Type 0}
    → Runtime
    → String
    → String
    → Times
    → Option Envelope
    → Result E Answer
    → Swr
    → Swr × Result E Fetched
unfolding decide conclude_fetch
swr_fetch runtime tenant_id query times reply fresh s =
    conclude_fetch runtime tenant_id query times.settled fresh (
      decide query times.first times.second (get_cached runtime query times.read s.breaker reply) s)
