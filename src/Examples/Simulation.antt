-- ===== src/Examples/Simulation.antt =====
-- The derivation and the simulation's parts on small inputs.
use puls_rfc.Prelude.{
  ℕ, ◌+◌, ◌≤◌, ◌<◌, ◌≡◌, refl, ◌⊎◌, true, List, [], ◌∷◌, ◌++◌, pos, arith, All, map,
}
use puls_rfc.Double.{Whole, whole_double, Whole-IsOrdered}
use puls_rfc.OperatingPoint.{ModelSpec, HwSpec}
use puls_rfc.Queue.{Request, GlobalQueue}
use puls_rfc.Cache.{ClusterCache, CacheConfig, new_cache, on_complete}
use puls_rfc.Cache.Accounting
use puls_rfc.Cache.Bytes.{hbm_bytes}
use puls_rfc.Sim.Harness.{Deployment}
use puls_rfc.Sim.Pending
use puls_rfc.Sim.Pending.{PendingReturns, add, due, IsAscending}
use puls_rfc.Sim.Metrics
use puls_rfc.Sim.Metrics.{Metrics, no_metrics, record_batch, IsCounted, deviation}
use puls_rfc.Sim.Kpi
use puls_rfc.Sim.Kpi.{Kpi, Slo, no_kpi, record_mubatch, IsTallied}
use puls_rfc.Sim.Ttft
use puls_rfc.Sim.Ttft.{Books, admit_ttft, IsBooked}
use puls_rfc.Sim.Preposition.{BatchDecoder, refill}
use puls_rfc.Sim.Refill
use puls_rfc.Sim.Refill.{IsRefilled}
use puls_rfc.Sim.Workload
use puls_rfc.Sim.Workload.{
  Random, IsUniform, MultiTurnConfig, MultiTurnWorkload, maybe_return, returns, IsReturn, IsDecided,
}
use puls_rfc.Examples.Point.{point}

abbrev pub model : ModelSpec
model = record {
  num_layers = 2;
  hidden = 8;
  num_heads = 2;
  num_kv_heads = 1;
  head_dim = 4;
  ffn_intermediate = 16;
  weight_bytes_per_elem = 2;
}

abbrev pub hardware : HwSpec Whole
hardware = record { gpu_peak_tflops = pos 1; gpu_mfu = pos 1; num_gpus_a = 1; num_gpus_b = 1 }

abbrev pub deployment : Deployment Whole
deployment = record { model = model; hw = hardware; op = point }

abbrev pub again : ℕ → ℕ → Request
again id arrival = record {
  id = id;
  prompt = 90;
  max_tokens = 10;
  cached_prefix = 40;
  arrival = arrival;
  turn = 1;
}

abbrev pub pending : PendingReturns
pending = (3, again 1 3) ∷ (5, again 2 5) ∷ (9, again 3 9) ∷ []

due_lem_example :
    let (out, rest) = due 5 (add 5 (again 4 5) pending) in
    (came : PendingReturns) × (add 5 (again 4 5) pending ≡ came ++ rest)
    × (out ≡ map (λ q. q.1) came)
    × All (λ q. q.0 ≤ 5) came
    × All (λ q. 5 < q.0) rest
    × IsAscending rest
due_lem_example =
    Pending.due_lem 5 5 (again 4 5) pending
      ((omega arith, (omega arith, tt)), ((omega arith, tt), (tt, tt)))

no_metrics-IsCounted : IsCounted (no_metrics {W = Whole})
no_metrics-IsCounted = record { decided = refl; explained = refl; sampled = refl }

record_batch-IsCounted_example :
    let k' = record_batch 2 210 point true no_metrics in
    IsCounted k'
    × ((k'.hits ≡ 0)
        ⊎ (point.decode_count_target ≡ point.decode_count_target)
          × (whole_double.le (deviation point 210) (pos 0) ≡ true))
record_batch-IsCounted_example =
    Metrics.record_batch-IsCounted 2 210 point true no_metrics no_metrics-IsCounted

abbrev pub slo : Slo Whole
slo = record { t_ttft_us = pos 1000; t_tbt_us = pos 500 }

no_kpi-IsTallied : IsTallied (no_kpi {W = Whole})
no_kpi-IsTallied = record {
  two = refl;
  three = refl;
  timed = refl;
  bared = omega arith;
  good = omega arith;
  part = omega arith;
  served = refl;
  kept = omega arith;
}

record_mubatch-IsTallied_example : IsTallied (record_mubatch 2 190 1 deployment slo (pos 1) no_kpi)
record_mubatch-IsTallied_example =
    Kpi.record_mubatch-IsTallied 2 190 1 deployment slo (pos 1) no_kpi (omega arith)
      no_kpi-IsTallied

abbrev pub config : CacheConfig Whole
config = record {
  eligibility_threshold = 10;
  evict_age = 5;
  gone_age = 20;
  offload_bw_bytes_per_round = pos 4;
}

abbrev pub fresh : ClusterCache Whole
fresh = new_cache 100 1 config

fresh-IsValid : Accounting.IsValid fresh
unfolding new_cache hbm_bytes
fresh-IsValid = record { accounted = λ n. refl; within = λ n. omega arith }

abbrev pub warm : ClusterCache Whole
warm = on_complete 0 1 50 2 fresh

abbrev pub books : Books Whole
books = record { cache = warm; metrics = no_metrics; kpi = no_kpi }

pub books-IsBooked : IsBooked books
books-IsBooked = record {
  classed = refl;
  valid = Accounting.on_complete-IsValid 0 1 50 2 fresh fresh-IsValid;
  tallied = no_kpi-IsTallied;
}

admit_ttft-IsBooked_example : IsBooked (admit_ttft deployment slo true 7 (again 1 3) books).1
admit_ttft-IsBooked_example =
    Ttft.admit_ttft-IsBooked deployment slo true 7 (again 1 3) books books-IsBooked

abbrev pub queued : GlobalQueue
queued = record { q = again 1 3 ∷ again 2 5 ∷ again 3 6 ∷ []; age_cap = 2; forced = 0 }

abbrev resident_one : List BatchDecoder
resident_one =
    record {
      id = 9;
      prompt = 70;
      max_tokens = 20;
      dec = 3;
      turn = 0;
      cached_prefix = 0;
      arrival = 0;
      met_ttft = true;
    }
    ∷ []

refill_lem_example :
    let (batch', g', b') =
      refill
        (admit_ttft deployment slo true 7)
        (pos 2000)
        7
        point
        (pos 73)
        resident_one
        queued
        books in
    IsRefilled Whole-IsOrdered (pos 2000) 7 2 200 (pos 73) resident_one queued batch' g'
refill_lem_example =
    Refill.refill_lem Whole-IsOrdered (pos 2000) 7 (admit_ttft deployment slo true 7) point (pos 73)
      resident_one queued books (omega arith)

-- Always the upper end, and a certain return.
abbrev pub upper : Random Whole ℕ
upper = record { uniform_int = λ lo hi g. (hi, g + 1); uniform_real = λ g. (pos 0, g + 1) }

upper-IsUniform : IsUniform upper
upper-IsUniform = record { in_range = λ lo hi g h. (h, omega arith) }

abbrev pub turns : MultiTurnConfig Whole
turns = record {
  p_return_short = pos 1;
  p_return_mid = pos 1;
  p_return_long = pos 1;
  dtot_lo = 256;
  dtot_hi = 4096;
  new_msg_lo = 500;
  new_msg_hi = 8000;
  think_gap_lo = 2;
  think_gap_hi = 40;
}

abbrev pub workload : MultiTurnWorkload ℕ
workload = record { rng = 0; next_id = 4 }

maybe_return_lem_example :
    let r = (maybe_return upper turns (again 1 3) 7 workload).0 in
    IsReturn upper turns (again 1 3) 7 r × IsDecided upper turns (again 1 3) (pos 0) (returns r)
maybe_return_lem_example =
    Workload.maybe_return_lem upper turns (again 1 3) 7 workload upper-IsUniform (omega arith)
      (omega arith) (omega arith)
