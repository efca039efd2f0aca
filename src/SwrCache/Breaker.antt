-- ===== src/SwrCache/Breaker.antt =====
-- functions/swr-cache.js: the object circuitBreaker.
pub mod Openings
use sentinel_engine_sovereig.Base.{ℕ, Bool, true, false, suc, ◌-◌, leb, ltb, if◌then◌else◌}

pub data BreakerState : Type 0 where
  closed opened half_open : BreakerState

pub record CircuitBreaker : Type 0 where
  pub failures : ℕ
  pub state : BreakerState
  pub last_failure : ℕ

abbrev pub threshold : ℕ
threshold = 3

abbrev pub reset_timeout : ℕ
reset_timeout = 60000

abbrev pub initial_breaker : CircuitBreaker
initial_breaker = record { failures = 0; state = closed; last_failure = 0 }

unfoldable pub record_success : CircuitBreaker → CircuitBreaker
record_success b = record b { failures = 0; state = closed }

unfoldable pub record_failure : ℕ → CircuitBreaker → CircuitBreaker
record_failure now b = record {
  failures = suc b.failures;
  state = if leb threshold (suc b.failures) then opened else b.state;
  last_failure = now;
}

abbrev is_late : ℕ → CircuitBreaker → Bool
is_late now b = ltb reset_timeout (now - b.last_failure)

-- An age that is negative, after the clock went back, is below the timeout as 0 is.
unfoldable pub allow_request : ℕ → CircuitBreaker → CircuitBreaker × Bool
allow_request now b = elim b.state [
  | closed ↦ (b, true)
  | opened ↦ if is_late now b then (record b { state = half_open }, true) else (b, false)
  | half_open ↦ (b, true)
]

abbrev pub is_open : CircuitBreaker → Bool
is_open b = elim b.state [ opened ↦ true | _ ↦ false ]
