-- ===== src/Sim.antt =====
-- The simulation of a cluster (puls-engine/sim): its shared harness, its measurements, the
-- multi-turn workload, and the pre-positioning composer that the drivers use.
pub mod Harness
pub mod Pending
pub mod Metrics
pub mod Kpi
pub mod Workload
pub mod Settings
pub mod Csched
pub mod Lifecycle
pub mod Prepo
pub mod Churn
pub mod Pools
pub mod Baseline
pub mod Ttft
pub mod Preposition
pub mod Refill
