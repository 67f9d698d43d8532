-- ===== src/Cache.antt =====
-- packages/cache: the in-memory store and the cache service.
pub mod Memory
pub mod Service
