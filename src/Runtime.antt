-- ===== src/Runtime.antt =====
-- puls-engine/runtime/runtime.cpp: the source of real requests, and the filling of a node's pool.
mod Defs
pub mod Queue
pub mod Conserved
pub mod Moves
pub mod WarmFill
mod Demo
pub mod Queued
pub mod Serving
unfoldable pub use Defs.*
unfoldable pub use Demo.*
