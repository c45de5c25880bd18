-- ===== src/Sim/Csched/State.antt =====
-- The state of puls-engine/sim/csched.cpp: its decoders, gap histograms, settings and what the nodes
-- share; and the advance of a node's decoders with their gaps.
use puls_rfc.Prelude.{ℕ, ◌+◌, Bool, ◌&&◌, List, ◌∷◌, ℤ, ltb, get_or, set, if◌then◌else◌}
use puls_rfc.Steering.{Decoder}
use puls_rfc.Queue.{Request, GlobalQueue}
use puls_rfc.Sim.Harness.{Deployment}
use puls_rfc.Sim.Pending.{PendingReturns}
use puls_rfc.Sim.Kpi.{Slo}
use puls_rfc.Sim.Ttft.{Books}
use puls_rfc.Sim.Workload.{Random, MultiTurnConfig, MultiTurnWorkload}

pub record SimDecoder : Type 0 where
  pub id : ℕ
  pub prompt : ℕ
  pub max_tokens : ℕ
  pub dec : ℕ
  pub wait : ℕ
  pub turn : ℕ
  pub cached_prefix : ℕ
  pub met_ttft : Bool
  pub max_gap : ℕ

abbrev pub live_kv : SimDecoder → ℕ
live_kv q = q.prompt + q.dec

abbrev pub to_steering : SimDecoder → Decoder
to_steering q = record { kv_length = live_kv q; wait = q.wait }

-- A gap is at least 1, and counts in the last cell from 4095 on.
pub record GapHist : Type 0 where
  pub h : List ℕ
  pub n : ℕ
  pub sum : ℕ
  pub mx : ℕ

unfoldable pub add_gap : ℕ → GapHist → GapHist
add_gap gap hist =
    let g = if ltb 4095 gap then 4095 else gap in
    record {
      h = set hist.h g (get_or hist.h g 0 + 1);
      n = hist.n + 1;
      sum = hist.sum + g;
      mx = if ltb hist.mx g then g else hist.mx;
    }

-- The driver's settings, with the sampler of a length and the fuel of its repetition.
pub record Knobs (W G : Type 0) : Type 0 where
  pub random : Random W G
  pub turns : MultiTurnConfig W
  pub sample_b : G → ℕ × G
  pub edge_cutoff : ℤ
  pub draws : ℕ
  pub deployment : Deployment W
  pub slo : Slo W
  pub beta : W
  pub affinity : Bool
  pub dyncache : Bool
  pub aff_spill_cap : ℕ
  pub cap_room : ℤ
  pub kv_bpt : ℕ
  pub design_pool_bytes : ℕ
  pub cache_cap_static : ℤ

pub record Shared (W G : Type 0) : Type 0 where
  pub queue : GlobalQueue
  pub pend : PendingReturns
  pub workload : MultiTurnWorkload G
  pub books : Books W
  pub gap_all : GapHist
  pub gap_reqmax : GapHist
  pub phys_hit : ℕ
  pub remote_hit : ℕ
  pub aff_admits : ℕ
  pub aff_spills : ℕ
  pub aff_wait_max : ℕ
  pub excess_bytes_sum : W
  pub excess_n : ℕ

-- A node's decoders and its affinity list.
pub record CschedNode : Type 0 where
  pub pool : List SimDecoder
  pub aff : List Request

unfoldable pub advance_gaps :
    Bool → List Bool → List SimDecoder → GapHist → List SimDecoder × GapHist
unfolding add_gap
advance_gaps measured (u ∷ us) (q ∷ qs) hist =
    let gap = q.wait + 1 in
    let hist' = if u && measured then add_gap gap hist else hist in
    let (qs', hist'') = advance_gaps measured us qs hist' in
    (
      (if u
            then record q {
              max_gap = if ltb q.max_gap gap then gap else q.max_gap;
              dec = q.dec + 1;
              wait = 0;
            }
            else record q { wait = q.wait + 1 })
          ∷ qs',
      hist'',
    )
advance_gaps measured _ qs hist = (qs, hist)
