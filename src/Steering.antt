-- ===== src/Steering.antt =====
-- puls-engine/core/steering.h and steering.cpp: the selection of a decode micro-batch, of the
-- prefill chunks, and the ageing of a pool.
mod Decode
mod Prefill
mod Age
pub mod Slots
pub mod Greedy
pub mod Run
pub mod Batch
pub mod Waits
pub mod Oldest
pub mod Chunks
pub mod Budget
unfoldable pub use Decode.*
unfoldable pub use Prefill.*
unfoldable pub use Age.*
