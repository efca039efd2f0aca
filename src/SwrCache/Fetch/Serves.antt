-- ===== src/SwrCache/Fetch/Serves.antt =====
-- functions/swr-cache.js: what swrFetch answers, when it throws, and what the cache then holds.
use sentinel_engine_sovereig.Base.{
  ℕ, String, true, false, Option, none, some, [], ◌∷◌, ◌++◌, ◌*◌, ◌+◌, ◌≤◌, Result, ok, err,
  if◌then◌else◌, ◌≡◌, refl, ◌↔◌, ◌≢◌, inl, inr, arith, Bool-cases,
}
use sentinel_engine_sovereig.SwrCache.Breaker.{
  opened, CircuitBreaker, record_success, allow_request, is_open,
}
use sentinel_engine_sovereig.SwrCache.Lifetime.{Runtime, classify_query_ttl, cache_key}
use sentinel_engine_sovereig.SwrCache.Fetch.{
  Answer, Envelope, SetCommand, Cached, stale_circuit_open, fresh_hit, miss_fetched, answer,
  Fetched, Swr, advise, is_stale_at, get_cached, set_cached, Decision, served, awaits,
  fetch_or_advise, revalidate, decide, settle, conclude_fetch, Times, swr_fetch,
}

-- the answer that an open circuit serves from an envelope
abbrev pub shown : Runtime → String → ℕ → Envelope → Answer
shown runtime query now e = if is_stale_at runtime query now e then advise e.payload else e.payload

abbrev pub hit : Answer → Fetched
hit a = record { payload = answer a; cache_status = fresh_hit; is_resilience_mode = false }

fetch_or_advise-some :
    (now : ℕ) (c : Cached) (s : Swr) → (fetch_or_advise now (some c) s).1 ≢ awaits none
unfolding fetch_or_advise
fetch_or_advise-some now c s e = ground arith

revalidate-some :
    (query : String) (now now' : ℕ) (c : Cached) (s : Swr)
    → (revalidate query now now' c s).1 ≢ awaits none
unfolding revalidate
revalidate-some query now now' c s e = elim (Bool-cases ((allow_request now s.breaker).1)) [
  | inl allowed ↦ ground arith
  | inr refused ↦
      ground (
        arith,
        fetch_or_advise-some now' c (record s { breaker = (allow_request now s.breaker).0 }),
      )
]

decide-awaits :
    (query : String) (now now' : ℕ) (cached : Option Cached) (s : Swr)
    → ((decide query now now' cached s).1 ≡ awaits none)
      ↔ ((cached ≡ none) × ((allow_request now' s.breaker).1 ≡ true))
unfolding decide fetch_or_advise
decide-awaits query now now' none s = (λ e. ground arith, λ e. ground arith)
decide-awaits query now now' (some c) s =
    (λ e. absurd (ground (arith, revalidate-some query now now' c s)), λ e. ground arith)

get_cached-none :
    (runtime : Runtime) (query : String) (now : ℕ) (breaker : CircuitBreaker)
    (reply : Option Envelope)
    → (get_cached runtime query now breaker reply ≡ none) ↔ (reply ≡ none)
unfolding get_cached
get_cached-none runtime query now breaker none = (λ e. refl, λ e. refl)
get_cached-none runtime query now breaker (some e) = (λ h. ground arith, λ h. ground arith)

module _ {E : Type 0} (runtime : Runtime) (tenant_id query : String) where
  -- Where the circuit is open and the answer is cached, swrFetch serves the cached answer, with the
  -- advisory if it is stale, changes nothing and asks for no fresh data, at every time: the circuit
  -- does not leave its state however long ago the last failure was.
  swr_fetch-opened :
      (times : Times) (e : Envelope) (fresh : Result E Answer) (s : Swr)
      → s.breaker.state ≡ opened
      → swr_fetch runtime tenant_id query times (some e) fresh s ≡ (
        s,
        ok (record {
          payload = answer (shown runtime query times.read e);
          cache_status = stale_circuit_open;
          is_resilience_mode = true;
        }),
      )
  unfolding swr_fetch get_cached decide conclude_fetch
  swr_fetch-opened times e fresh s h = elim (Bool-cases (is_stale_at runtime query times.read e)) [
    | inl stale ↦ rw (h, stale) refl
    | inr young ↦ rw (h, young) refl
  ]

  decide-young :
      (times : Times) (e : Envelope) (fresh : Result E Answer) (s : Swr)
      → is_open s.breaker ≡ false
      → is_stale_at runtime query times.read e ≡ false
      → swr_fetch runtime tenant_id query times (some e) fresh s ≡ (s, ok (hit e.payload))
  unfolding swr_fetch get_cached decide conclude_fetch
  decide-young times e fresh s shut young = rw (shut, young) refl

  conclude-never :
      (now : ℕ) (fresh : Result E Answer) (d : Swr × Decision) (fault : E)
      → ((conclude_fetch runtime tenant_id query now fresh d).1 ≡ err fault)
        ↔ ((d.1 ≡ awaits none) × (fresh ≡ err fault))
  unfolding conclude_fetch settle
  conclude-never now fresh (s, served f) fault = (λ e. ground arith, λ e. ground arith)
  conclude-never now (ok a) (s, awaits cached) fault = (λ e. ground arith, λ e. ground arith)
  conclude-never now (err g) (s, awaits none) fault = (λ e. ground arith, λ e. ground arith)
  conclude-never now (err g) (s, awaits (some c)) fault = (λ e. ground arith, λ e. ground arith)

  -- swrFetch throws in one case only: nothing is cached, the breaker lets the request through, and
  -- the fetch of fresh data throws. In every other case it returns an answer or the advisory.
  swr_fetch_throws_iff :
      (times : Times) (reply : Option Envelope) (fresh : Result E Answer) (s : Swr) (fault : E)
      → ((swr_fetch runtime tenant_id query times reply fresh s).1 ≡ err fault)
        ↔ ((reply ≡ none) × ((allow_request times.second s.breaker).1 ≡ true) × (fresh ≡ err fault))
  unfolding swr_fetch
  swr_fetch_throws_iff times reply fresh s fault =
      let cached = get_cached runtime query times.read s.breaker reply in
      let (left, right) =
        conclude-never times.settled fresh (decide query times.first times.second cached s) fault in
      let (waits, waits') = decide-awaits query times.first times.second cached s in
      let (missed, missed') = get_cached-none runtime query times.read s.breaker reply in
      (
        λ e. let (w, thrown) = left e in let (c, allowed) = waits w in (missed c, allowed, thrown),
        λ (r, allowed, thrown). right (waits' (missed' r, allowed), thrown),
      )

  miss_fetches :
      (times : Times) (a : Answer) (s : Swr)
      → (allow_request times.second s.breaker).1 ≡ true
      → swr_fetch {E = E} runtime tenant_id query times none (ok a) s
        ≡ settle runtime tenant_id query times.settled none
            (ok a)
            (record s { breaker = (allow_request times.second s.breaker).0 })
  unfolding swr_fetch get_cached decide fetch_or_advise conclude_fetch
  miss_fetches times a s allowed = rw allowed refl

  -- What was fetched is served again: where nothing is cached and the breaker lets the request
  -- through, an answer a is written under the key of the query for twice its lifetime, and for that
  -- lifetime a call whose reply is the envelope written serves a itself, as fresh, changes nothing
  -- and asks for no other answer.
  pub fetch_then_hit :
      (times times' : Times) (a : Answer) (again : Result E Answer) (s : Swr)
      → (allow_request times.second s.breaker).1 ≡ true
      → times'.read ≤ times.settled + (classify_query_ttl runtime query).1 * 1000
      → (c : SetCommand) × (s' : Swr) × (swr_fetch {E = E} runtime tenant_id query times none
            (ok a)
            s
          ≡ (s', ok (record (hit a) { cache_status = miss_fetched })))
        × (s'.sent ≡ s.sent ++ c ∷ [])
        × (c.key ≡ cache_key runtime tenant_id query)
        × (c.grace_ttl ≡ (classify_query_ttl runtime query).1 * 2)
        × (swr_fetch runtime tenant_id query times' (some c.envelope) again s' ≡ (s', ok (hit a)))
  unfolding settle set_cached record_success
  fetch_then_hit times times' a again s allowed soon =
      let (category, ttl) = classify_query_ttl runtime query in
      let written : SetCommand = record {
        key = cache_key runtime tenant_id query;
        envelope = record {
          payload = a;
          cached_at = times.settled;
          category = category;
          ttl = ttl;
        };
        grace_ttl = ttl * 2;
      } in
      let s' =
        set_cached runtime tenant_id query times.settled a
          (record s { breaker = record_success (allow_request times.second s.breaker).0 }) in
      (
        written,
        s',
        miss_fetches times a s allowed,
        refl,
        refl,
        refl,
        decide-young times' written.envelope again s' refl (ground arith),
      )
