-- ===== src/Storage.antt =====
-- storage/: the keyspace, the eviction structures, and the engine over them.
pub mod Assoc
pub mod IndexMap
pub mod Policy
pub mod Lfu
pub mod Entry
pub mod Keyspace
pub mod Sieve
pub mod AdaptiveClimb
pub mod Candidates
pub mod Engine
