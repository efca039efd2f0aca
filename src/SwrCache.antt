-- ===== src/SwrCache.antt =====
-- functions/swr-cache.js: the circuit breaker, the lifetime of an answer, and swrFetch.
pub mod Breaker
pub mod Lifetime
pub mod Fetch
