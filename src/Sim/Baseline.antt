-- ===== src/Sim/Baseline.antt =====
-- The baseline of puls-engine/sim/baseline.cpp: nodes that heal from the global queue by the nearest
-- length, without its age cap and without caching.
pub mod Defs
pub mod Round
pub mod Population
pub mod Uncached
pub mod Hitless
pub mod Dry
