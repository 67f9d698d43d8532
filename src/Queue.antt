-- ===== src/Queue.antt =====
-- packages/queue: the in-memory backend.
pub mod Memory
