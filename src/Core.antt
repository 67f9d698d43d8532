-- ===== src/Core.antt =====
-- packages/core/src: the dependency injection container of the framework.
pub mod Provider
pub mod World
pub mod Instantiate
pub mod Container
