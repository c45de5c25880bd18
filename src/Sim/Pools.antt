-- ===== src/Sim/Pools.antt =====
-- The diagnosis of the pools in puls-engine/sim/baseline.cpp and csched.cpp, which do it alike. A pool
-- is the list of its decoders' prompts and live KV lengths.
use puls_rfc.Prelude.{ℕ, ◌+◌, Bool, ◌&&◌, List, pos, ltb, length, sum_by, if◌then◌else◌}
use puls_rfc.Double.{Double}
use puls_rfc.Sim.Metrics.{record_pool}
use puls_rfc.Sim.Ttft.{Books}
use puls_rfc.Sim.Workload.{LengthClass, short, mid, long, cls}

abbrev pub same_class : LengthClass → LengthClass → ℕ
same_class short short = 1
same_class mid mid = 1
same_class long long = 1
same_class _ _ = 0

-- How many of a pool are of a class.
unfoldable pub in_class : LengthClass → List (ℕ × ℕ) → ℕ
unfolding cls
in_class c pool = sum_by (λ q. same_class c (cls q.0)) pool

-- The sums of a round over the nodes with a pool: of the class shares, and of the mean live KV.
pub record PoolSums (W : Type 0) : Type 0 where
  pub resid : W × W × W
  pub mean : W
  pub nodes : ℕ

module _ {W : Type 0} ⦃d : Double W⦄ where
  abbrev pub no_pools : PoolSums W
  no_pools =
      let none_yet = d.of_int (pos 0) in
      record { resid = (none_yet, none_yet, none_yet); mean = none_yet; nodes = 0 }

  unfoldable pub note_pool : Bool → List (ℕ × ℕ) → PoolSums W → PoolSums W
  unfolding in_class
  note_pool measured pool r =
      let share : ℕ → W = λ n. d.div (d.of_int (pos n)) (d.of_int (pos (length pool))) in
      if measured && ltb 0 (length pool)
      then record {
        resid = (
          d.add r.resid.0 (share (in_class short pool)),
          d.add r.resid.1 (share (in_class mid pool)),
          d.add r.resid.2 (share (in_class long pool)),
        );
        mean = d.add r.mean (share (sum_by (λ q. q.1) pool));
        nodes = r.nodes + 1;
      }
      else r

  unfoldable pub book_pools : Bool → PoolSums W → Books W → Books W
  unfolding record_pool
  book_pools measured r b =
      let per : W → W = λ x. d.div x (d.of_int (pos r.nodes)) in
      if measured && ltb 0 r.nodes
      then record b {
        metrics = record_pool (per r.mean) (per r.resid.0, per r.resid.1, per r.resid.2) b.metrics;
      }
      else b
