-- ===== src/Events.antt =====
-- packages/events/src: the in-process event emitter.
pub mod Pattern
pub mod Listener
pub mod Emitter
pub mod Dispatch
