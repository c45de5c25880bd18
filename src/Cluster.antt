-- ===== src/Cluster.antt =====
-- puls-engine/core/global_scheduler.h and global_scheduler.cpp: the gate, the cold start, the
-- healing of a node and the on-point check.
mod Defs
mod Onpoint
pub mod Gate
pub mod Placement
pub mod OnpointCount
unfoldable pub use Defs.*
unfoldable pub use Onpoint.*
pub mod Measure
