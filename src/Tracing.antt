-- ===== src/Tracing.antt =====
-- packages/tracing/src: the headers that carry a trace from one service to the next.
pub mod Propagation
