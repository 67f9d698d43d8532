-- ===== src/Resilience.antt =====
-- packages/resilience: the circuit breaker, the bulkhead and retries.
pub mod Circuit
pub mod Bulkhead
pub mod Retry
pub mod Service
