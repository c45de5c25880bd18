-- ===== src/Cluster/Measure.antt =====
-- `measure` of puls-engine/sim/sim.cpp: how well a cluster's nodes are centred.
use puls_rfc.Prelude.{
  ℕ, ◌+◌, ◌&&◌, Option, none, some, List, [], ◌∷◌, pos, ltb, leb, length, if◌then◌else◌,
}
use puls_rfc.Double.{Double}
use puls_rfc.OperatingPoint.{OperatingPoint}
use puls_rfc.Cluster.Defs.{ClusterNode, count, mean}
use puls_rfc.Cluster.Onpoint.{onpoint_batches}

-- `cnt_min` is `none` for `INT_MAX`.
pub record Stat (W : Type 0) : Type 0 where
  pub cnt_min : Option ℕ
  pub cnt_mean : W
  pub in_range : W
  pub dev_avg : W
  pub dev_max : W
  pub on2 : W

-- The running values of the loop.
pub record Sums (W : Type 0) : Type 0 where
  pub cnt_min : Option ℕ
  pub inside : ℕ
  pub hits : ℕ
  pub csum : W
  pub dsum : W
  pub dmax : W

module _ {W : Type 0} ⦃d : Double W⦄ (op : OperatingPoint W) where
  unfoldable pub measure_node : ClusterNode → Sums W → Sums W
  unfolding mean onpoint_batches
  measure_node nd s =
      let c = count nd in
      let dv = d.fabs (d.sub (mean nd) op.ctx_balance) in
      record {
        cnt_min = some (elim s.cnt_min [ none ↦ c | some m ↦ if ltb c m then c else m ]);
        inside = if leb op.node_min c && leb c op.node_max then s.inside + 1 else s.inside;
        hits = if leb 2 (onpoint_batches op nd 2) then s.hits + 1 else s.hits;
        csum = d.add s.csum (d.of_int (pos c));
        dsum = d.add s.dsum dv;
        dmax = if d.lt s.dmax dv then dv else s.dmax;
      }

  unfoldable pub measure_loop : List ClusterNode → Sums W → Sums W
  unfolding measure_node
  measure_loop [] s = s
  measure_loop (nd ∷ nodes) s = measure_loop nodes (measure_node nd s)

  unfoldable pub measure : List ClusterNode → Stat W
  unfolding measure_loop
  measure nodes =
      let none_yet = d.of_int (pos 0) in
      let z = d.of_int (pos (length nodes)) in
      let s = measure_loop nodes (record {
        cnt_min = none;
        inside = 0;
        hits = 0;
        csum = none_yet;
        dsum = none_yet;
        dmax = none_yet;
      }) in
      let percent : ℕ → W = λ n. d.div (d.mul (d.decimal 100 0) (d.of_int (pos n))) z in
      record {
        cnt_min = s.cnt_min;
        cnt_mean = d.div s.csum z;
        in_range = percent s.inside;
        dev_avg = d.div s.dsum z;
        dev_max = s.dmax;
        on2 = percent s.hits;
      }
