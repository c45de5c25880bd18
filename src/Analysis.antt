-- ===== src/Analysis.antt =====
-- The analysis programs of puls-engine/analysis: the efficiency at an operating point, and the largest
-- model that fits the memory.
pub mod Efficiency
pub mod MaxModel
pub mod Boundary
