-- ===== src/Sim/Csched.antt =====
-- The composed scheduler of puls-engine/sim/csched.cpp: its state, cold start, rounds and main loop.
mod State
mod Defs
pub mod Round
pub mod Start
pub mod Caches
pub mod Population
pub mod Loop
pub mod Spill
pub use puls_rfc.Sim.Csched.State.{
  SimDecoder, live_kv, to_steering, GapHist, add_gap, Knobs, Shared, CschedNode, advance_gaps,
}
pub use puls_rfc.Sim.Csched.Defs.{
  as_request, complete, retire, arrival_test, arrival_mark, admit_ttft, next_request, admit_to,
  heal, selected_kv, selected_met, record_selected, compose_round, serve_node, spill,
}
