-- ===== src/SwrCache/Breaker/Openings.antt =====
-- functions/swr-cache.js: when the circuit opens, and what a half-open circuit lets through.
use sentinel_engine_sovereig.Base.{
  ℕ, Bool, true, false, List, [], ◌∷◌, length, ◌+◌, ◌≤◌, ◌<◌, ◌≡◌, refl, ◌↔◌, ◌≢◌, ◌⊎◌, inr, arith,
  ap, if◌then◌else◌,
}
use sentinel_engine_sovereig.SwrCache.Breaker.{
  closed, opened, half_open, CircuitBreaker, threshold, reset_timeout, initial_breaker,
  record_success, record_failure, allow_request,
}

-- one call of the breaker
pub data BreakerStep : CircuitBreaker → CircuitBreaker → Type 0 where
  success : (b : CircuitBreaker) → BreakerStep b (record_success b)
  failure : (now : ℕ) (b : CircuitBreaker) → BreakerStep b (record_failure now b)
  request : (now : ℕ) (b : CircuitBreaker) → BreakerStep b (allow_request now b).0

pub data BreakerReach : CircuitBreaker → Type 0 where
  start : BreakerReach initial_breaker
  step : (b c : CircuitBreaker) → BreakerReach b → BreakerStep b c → BreakerReach c

-- The circuit is closed exactly while fewer failures than the threshold are counted.
abbrev pub IsCounted : CircuitBreaker → Type 0
IsCounted b = (b.state ≡ closed) ↔ (b.failures < threshold)

step-IsCounted : (b c : CircuitBreaker) → BreakerStep b c → IsCounted b → IsCounted c
unfolding record_success record_failure allow_request
step-IsCounted b _ (success _) h = (λ e. omega arith, λ e. refl)
step-IsCounted b _ (failure now _) h = (λ e. ground (arith, h.0), λ e. ground (arith, h.1))
step-IsCounted b _ (request now _) h = (λ e. ground (arith, h.0), λ e. ground (arith, h.1))

-- Whatever calls the breaker has seen since the start, its circuit is closed exactly while fewer
-- than three failures are counted since the last success.
BreakerReach-IsCounted : (b : CircuitBreaker) → BreakerReach b → IsCounted b
BreakerReach-IsCounted _ start = (λ e. omega arith, λ e. refl)
BreakerReach-IsCounted _ (step b c before s) =
    step-IsCounted b c s (BreakerReach-IsCounted b before)

-- failures at these times, the last one first
unfoldable pub fail_at : List ℕ → CircuitBreaker → CircuitBreaker
fail_at [] b = b
fail_at (now ∷ before) b = record_failure now (fail_at before b)

failures-fail_at :
    (times : List ℕ) (b : CircuitBreaker) → (fail_at times b).failures ≡ length times + b.failures
unfolding fail_at record_failure
failures-fail_at [] b = omega arith
failures-fail_at (now ∷ before) b = omega (arith, failures-fail_at before b)

state-fail_at :
    (times : List ℕ) (b : CircuitBreaker)
    → ((fail_at times b).state ≡ opened) ⊎ ((fail_at times b).state ≡ b.state)
unfolding fail_at record_failure
state-fail_at [] b = inr refl
state-fail_at (now ∷ before) b = ground (arith, state-fail_at before b)

-- After a success, failures and nothing else open the circuit exactly from the third one on,
-- whatever the times; they never leave it half open.
fail_at-opened :
    (times : List ℕ) (b : CircuitBreaker)
    → (((fail_at times (record_success b)).state ≡ opened) ↔ (3 ≤ length times))
      × ((fail_at times (record_success b)).state ≢ half_open)
unfolding fail_at record_success record_failure
fail_at-opened [] b = ((λ e. ground arith, λ le. ground arith), λ e. ground arith)
fail_at-opened (now ∷ before) b =
    let ((sound, complete), whole) = fail_at-opened before b in
    let count = failures-fail_at before (record_success b) in
    ((λ e. ground (arith, sound, count), λ le. ground (arith, count)), λ e. ground (arith, whole))

-- allow_request at each of these times, the last one first: whether every one was let through
unfoldable pub all_allowed : List ℕ → CircuitBreaker → CircuitBreaker × Bool
all_allowed [] b = (b, true)
all_allowed (now ∷ before) b =
    let (c, fine) = all_allowed before b in
    let (d, allowed) = allow_request now c in (d, if fine then allowed else false)

all_allowed-half_open :
    (times : List ℕ) (b : CircuitBreaker) → b.state ≡ half_open → all_allowed times b ≡ (b, true)
unfolding all_allowed allow_request
all_allowed-half_open [] b h = refl
all_allowed-half_open (now ∷ before) b h = rw (all_allowed-half_open before b h) (rw h refl)

-- A half-open circuit is no probe of one request: once a late request was let through, every
-- request after it is let through too, however many they are, until a call succeeds or fails.
probe-all_allowed :
    (now : ℕ) (times : List ℕ) (b : CircuitBreaker)
    → b.state ≡ opened
    → b.last_failure + reset_timeout < now
    → ((allow_request now b).1 ≡ true) × ((all_allowed times (allow_request now b).0).1 ≡ true)
unfolding allow_request
probe-all_allowed now times b h late =
    let probe : allow_request now b ≡ (record b { state = half_open }, true) = ground arith in
    (
      rw probe refl,
      rw probe (
          ap (λ (x : CircuitBreaker × Bool). x.1)
            (all_allowed-half_open times (record b { state = half_open }) refl)),
    )
