-- ===== src/Runtime.antt =====
-- app/services/runtime/resilience.py: the circuit breaker and the cache.
pub mod Cache
pub mod Breaker
