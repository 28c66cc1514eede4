-- ===== src/Asset.antt =====
-- internal/asset: the asset model, merging of observations, identities, and the manager.
pub mod Types
pub mod Identity
pub mod Merge
pub mod Extra
pub mod Observe
pub mod Infer
pub mod Shard
pub mod Lifecycle
pub mod Manager
pub mod Race
pub mod Interleaved
pub mod Tests
