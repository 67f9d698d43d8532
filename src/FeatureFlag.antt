-- ===== src/FeatureFlag.antt =====
-- packages/feature-flag/src: flags that are on for some users.
pub mod Memory
