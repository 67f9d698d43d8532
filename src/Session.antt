-- ===== src/Session.antt =====
-- packages/session/src: sessions in memory, and the service over them.
pub mod Records
pub mod Memory
pub mod Service
