-- ===== src/Examples/Rounds.antt =====
-- A batch, a spill and a round of the drivers, on a small state.
use puls_rfc.Prelude.{ℕ, ◌+◌, false, true, List, [], ◌∷◌, pos, replicate}
use puls_rfc.Double.{Whole, whole_double}
use puls_rfc.Queue.{Request}
use puls_rfc.Sim.Csched.{SimDecoder, GapHist, Knobs, Shared, CschedNode}
use puls_rfc.Sim.Csched.Spill
use puls_rfc.Sim.Prepo.{PrepoState}
use puls_rfc.Sim.Preposition.{BatchDecoder}
use puls_rfc.Examples.Simulation.{
  deployment, slo, books, queued, upper, turns, workload, pending, again,
}

abbrev pub knobs : Knobs Whole ℕ
knobs = record {
  random = upper;
  turns = turns;
  sample_b = λ g. (90, g + 1);
  edge_cutoff = pos 400;
  draws = 1;
  deployment = deployment;
  slo = slo;
  beta = pos 1;
  affinity = true;
  dyncache = true;
  aff_spill_cap = 4;
  cap_room = pos 2000;
  kv_bpt = 1;
  design_pool_bytes = 500;
  cache_cap_static = pos 100;
}

abbrev no_gaps : GapHist
no_gaps = record { h = replicate 4096 0; n = 0; sum = 0; mx = 0 }

abbrev pub shared : Shared Whole ℕ
shared = record {
  queue = queued;
  pend = pending;
  workload = workload;
  books = books;
  gap_all = no_gaps;
  gap_reqmax = no_gaps;
  phys_hit = 0;
  remote_hit = 0;
  aff_admits = 0;
  aff_spills = 0;
  aff_wait_max = 0;
  excess_bytes_sum = pos 0;
  excess_n = 0;
}

abbrev resident : ℕ → ℕ → SimDecoder
resident id dec = record {
  id = id;
  prompt = 90;
  max_tokens = 10;
  dec = dec;
  wait = 0;
  turn = 0;
  cached_prefix = 0;
  met_ttft = false;
  max_gap = 1;
}

-- One decoder is about to finish, and one return waits for its node.
abbrev pub node : CschedNode
node = record { pool = resident 11 9 ∷ resident 12 3 ∷ []; aff = again 5 2 ∷ [] }

abbrev affine : List Request
affine = again 5 2 ∷ again 6 9 ∷ again 7 1 ∷ []

abbrev pub batch : List BatchDecoder
batch =
    record {
      id = 11;
      prompt = 90;
      max_tokens = 10;
      dec = 9;
      turn = 0;
      cached_prefix = 0;
      arrival = 0;
      met_ttft = true;
    }
    ∷ []

abbrev pub prepo : PrepoState Whole ℕ
prepo = record { queue = queued; pend = pending; workload = workload; books = books }
