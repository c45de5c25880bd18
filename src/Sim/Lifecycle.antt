-- ===== src/Sim/Lifecycle.antt =====
-- The lifecycle simulator of puls-engine/sim/lifecycle.cpp: prefill, hand-over and decode
-- of a node, the cold start and the loop.
pub mod Prefill
pub mod Decode
pub mod Agrees
pub mod Measure
pub mod Defs
pub mod Loop
pub mod Start
pub mod Disjoint
pub mod Balance
pub mod Health
pub mod Cold
pub mod Life
