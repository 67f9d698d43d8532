-- ===== src/Metrics.antt =====
-- packages/metrics/src: counters with labels.
pub mod Labels
pub mod Counter
