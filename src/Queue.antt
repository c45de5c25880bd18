-- ===== src/Queue.antt =====
-- puls-engine/scheduler/request.h, queue.h and queue.cpp: the global pool of requests with its
-- age cap.
mod Defs
pub mod Take
pub mod Pull
unfoldable pub use Defs.*
