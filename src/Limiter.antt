-- ===== src/Limiter.antt =====
-- packages/limiter: rate limiting.
pub mod Memory
pub mod Service
