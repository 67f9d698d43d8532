-- ===== src/Schedule.antt =====
-- packages/schedule: the in-process backend and the cron expressions.
pub mod Tasks
pub mod Memory
pub mod Cron
