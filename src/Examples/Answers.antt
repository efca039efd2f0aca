-- ===== src/Examples/Answers.antt =====
-- functions/swr-cache.js on a closed breaker, on one that failed three times, and on a question
-- about a port.
use sentinel_engine_sovereig.Base.{
  ℕ, String, true, Option, none, some, List, [], ◌∷◌, ◌++◌, ◌*◌, ◌+◌, Result, ok, err, ◌≡◌, refl,
  arith,
}
use sentinel_engine_sovereig.SwrCache.Breaker.{
  opened, CircuitBreaker, initial_breaker, record_failure, allow_request,
}
use sentinel_engine_sovereig.SwrCache.Lifetime.{Runtime, classify_query_ttl, cache_key}
use sentinel_engine_sovereig.SwrCache.Fetch.{
  Answer, Envelope, SetCommand, miss_fetched, Swr, Times, swr_fetch,
}
use sentinel_engine_sovereig.SwrCache.Fetch.Serves.{hit, fetch_then_hit}

abbrev runtime : Runtime
runtime = record { to_lower_case = λ t. t; trim = λ t. t; sha256 = λ t. t }

abbrev once_failed : CircuitBreaker
once_failed = record_failure 10 initial_breaker

abbrev moments : List ℕ
moments = 30 ∷ 20 ∷ 10 ∷ []

abbrev tripped : CircuitBreaker
tripped = record { failures = 3; state = opened; last_failure = 30 }

abbrev times : ℕ → Times
times n = record { read = n; first = n + 1; second = n + 2; settled = n + 3 }

abbrev port_answer : Answer
port_answer = record { narrative = some "The port is open."; rest = "{}" }

abbrev envelope : Envelope
envelope = record { payload = port_answer; cached_at = 40; category = "OPERATIONAL"; ttl = 3600 }

abbrev open_swr : Swr
open_swr = record { breaker = tripped; sent = []; background = [] }

abbrev closed_swr : Swr
closed_swr = record { breaker = initial_breaker; sent = []; background = [] }

-- what the fetch of fresh data ends with, where it fails
abbrev lost : Result String Answer
lost = err "lost"

abbrev missing : Option Envelope
missing = none

closed_allows : (allow_request 12 initial_breaker).1 ≡ true
unfolding allow_request
closed_allows = refl

port_ttl : (classify_query_ttl runtime "port").1 ≡ 3600
unfolding classify_query_ttl
port_ttl = refl

fetch_then_hit_example :
    (c : SetCommand) × (s' : Swr) × (swr_fetch {E = String} runtime "acme" "port"
        (times 10)
        none
        (ok port_answer)
        closed_swr
      ≡ (s', ok (record (hit port_answer) { cache_status = miss_fetched })))
    × (s'.sent ≡ closed_swr.sent ++ c ∷ [])
    × (c.key ≡ cache_key runtime "acme" "port")
    × (c.grace_ttl ≡ (classify_query_ttl runtime "port").1 * 2)
    × (swr_fetch runtime "acme" "port" (times 1000000) (some c.envelope) lost s'
        ≡ (s', ok (hit port_answer)))
fetch_then_hit_example =
    fetch_then_hit runtime "acme" "port" (times 10) (times 1000000) port_answer lost closed_swr
      closed_allows (omega (arith, port_ttl))
