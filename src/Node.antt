-- ===== src/Node.antt =====
-- puls-engine/core/node_scheduler.h and node_scheduler.cpp: the resident decode pool of one node.
mod Defs
pub mod Pull
pub mod Waits
pub mod Starvation
pub mod Population
unfoldable pub use Defs.*
