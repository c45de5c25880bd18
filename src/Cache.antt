-- ===== src/Cache.antt =====
-- puls-engine/scheduler/cache.h and cache.cpp: the cluster's KV cache with its three tiers.
mod Defs
pub mod Entries
pub mod Nodes
pub mod Bytes
pub mod Accounting
pub mod Answers
unfoldable pub use Defs.*
