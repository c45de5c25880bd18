-- ===== src/Sim/Churn.antt =====
-- The drivers of puls-engine/sim/sim.cpp: the cold start of `sim1`, and the churn of `sim2`, in which
-- each resident departs with chance `p` and each departure is healed.
use puls_rfc.Prelude.{
  ℕ, zero, suc, ◌+◌, ◌≤◌, ◌≡◌, refl, Option, none, some, List, [], ◌∷◌, pos, ltb, leb, ◌==◌, length,
  sum_by, All, arith, Bool-cases, inl, inr, if◌then◌else◌,
}
use puls_rfc.Double.{Double}
use puls_rfc.OperatingPoint.{OperatingPoint}
use puls_rfc.RequestSource.{RequestSource, Fits}
use puls_rfc.Cluster.{ClusterNode, count, gate, cold_start, heal_node}
use puls_rfc.Cluster.Measure.{Stat, measure}
use puls_rfc.Cluster.Placement.{IsSummed, heal_node_lem}
use puls_rfc.Sim.Workload.{Random}

-- The sums over the late rounds.
pub record Late (W : Type 0) : Type 0 where
  pub l_in : W
  pub l_da : W
  pub l_dm : W
  pub l_o2 : W
  pub l_cm : W
  pub l_pull : W
  pub l_cmin : Option ℕ
  pub l_n : ℕ

-- `none` is `INT_MAX`, the minimum of no node.
abbrev pub min_count : Option ℕ → Option ℕ → Option ℕ
min_count none b = b
min_count (some a) none = some a
min_count (some a) (some b) = some (if ltb b a then b else a)

module _ {W : Type 0} ⦃d : Double W⦄ where
  unfoldable pub add_late : Stat W → ℕ → Late W → Late W
  add_late st pulls l = record {
    l_in = d.add l.l_in st.in_range;
    l_da = d.add l.l_da st.dev_avg;
    l_dm = if d.lt l.l_dm st.dev_max then st.dev_max else l.l_dm;
    l_o2 = d.add l.l_o2 st.on2;
    l_cm = d.add l.l_cm st.cnt_mean;
    l_pull = d.add l.l_pull (d.of_int (pos pulls));
    l_cmin = min_count l.l_cmin st.cnt_min;
    l_n = l.l_n + 1;
  }

  -- The requests shed or left over, and the measurement of the nodes after a cold start.
  unfoldable pub sim1 :
      OperatingPoint W → (List ℕ → List ℕ) → List ℕ → List ClusterNode → ℕ × Stat W
  unfolding gate cold_start measure
  sim1 op shuffle draw nodes =
      let g = gate op draw in
      let (placed, leftover) = cold_start op shuffle g.kept nodes in
      (length g.edged + leftover, measure op placed)

  module _ {G : Type 0} (random : Random W G) (p : W) where
    -- The lengths kept and the lengths departed: `uni(churn_rng) >= p` keeps.
    unfoldable pub depart : List ℕ → G → List ℕ × List ℕ × G
    depart [] g = ([], [], g)
    depart (len ∷ lengths) g =
        let (u, g1) = random.uniform_real g in
        let (keep, departed, g2) = depart lengths g1 in
        if d.le p u then (len ∷ keep, departed, g2) else (keep, len ∷ departed, g2)

    module _ (op : OperatingPoint W) {S : Type 0} (src : RequestSource W S) where
      unfoldable pub churn_node : ClusterNode → G → S → ClusterNode × ℕ × G × S
      unfolding depart heal_node
      churn_node nd g s =
          let (keep, departed, g') = depart nd.lengths g in
          let (nd', pulls, s') =
            heal_node op src departed (record { lengths = keep; total = sum_by (λ len. len) keep })
              s in
          (nd', pulls, g', s')

      -- All nodes, and the pulls of the round.
      unfoldable pub churn_round : List ClusterNode → ℕ → G → S → List ClusterNode × ℕ × G × S
      unfolding churn_node
      churn_round [] pulls g s = ([], pulls, g, s)
      churn_round (nd ∷ nodes) pulls g s =
          let (nd', n, g1, s1) = churn_node nd g s in
          let (nodes', pulls', g2, s2) = churn_round nodes (pulls + n) g1 s1 in
          (nd' ∷ nodes', pulls', g2, s2)

      -- The rounds from `rd` on: the measurement of round `warm`, and the sums from it on.
      unfoldable pub churn_loop :
          ℕ
          → ℕ
          → ℕ
          → List ClusterNode
          → G
          → S
          → Option (Stat W)
          → Late W
          → List ClusterNode × Option (Stat W) × Late W
      unfolding churn_round measure add_late
      churn_loop warm zero rd nodes g s early late = (nodes, early, late)
      churn_loop warm (suc rounds) rd nodes g s early late =
          let (nodes', pulls, g', s') = churn_round nodes 0 g s in
          churn_loop warm rounds (rd + 1) nodes' g' s'
            (if rd == warm then some (measure op nodes') else early)
            (if leb warm rd then add_late (measure op nodes') pulls late else late)

      depart_lem :
          (lengths : List ℕ) (g : G)
          → (let (keep, departed, g') = depart lengths g in
              (length keep + length departed ≡ length lengths)
              × (sum_by (λ len. len) keep ≤ sum_by (λ len. len) lengths))
      unfolding depart
      depart_lem [] g = (refl, omega arith)
      depart_lem (len ∷ lengths) g =
          let (u, g1) = random.uniform_real g in
          let (parts, less) = depart_lem lengths g1 in
          elim (Bool-cases (d.le p u)) [
            | inl stays ↦ rw (stays, depart) (omega (arith, parts), omega (arith, less))
            | inr goes ↦ rw (goes, depart) (omega (arith, parts), omega (arith, less))
          ]

      -- A node with an exact total within the footprint cap, and at most `top` residents.
      pub record IsKept (top : ℕ) (nd : ClusterNode) : Type 0 where
        pub summed : IsSummed nd
        pub footprint : nd.total ≤ op.node_footprint_cap
        pub counted : count nd ≤ top

      churn_node-IsKept :
          (top : ℕ) (nd : ClusterNode) (g : G) (s : S)
          → Fits src
          → IsKept top nd
          → IsKept top (churn_node nd g s).0
      unfolding churn_node
      churn_node-IsKept top nd g s fits v =
          let (keep, departed, g') = depart nd.lengths g in
          let (parts, less) = depart_lem nd.lengths g in
          let (summed, cap, grown, few) =
            heal_node_lem op src departed
              (record { lengths = keep; total = sum_by (λ len. len) keep }) s fits refl
              (omega (arith, less, v.summed, v.footprint)) in
          record {
            summed = summed;
            footprint = cap;
            counted = omega (arith, grown, few, parts, v.counted);
          }

      churn_round-IsKept :
          (top : ℕ) (nodes : List ClusterNode) (pulls : ℕ) (g : G) (s : S)
          → Fits src
          → All (IsKept top) nodes
          → All (IsKept top) (churn_round nodes pulls g s).0
      unfolding churn_round
      churn_round-IsKept top [] pulls g s fits v = tt
      churn_round-IsKept top (nd ∷ nodes) pulls g s fits v =
          let (nd', n, g1, s1) = churn_node nd g s in
          (
            churn_node-IsKept top nd g s fits v.0,
            churn_round-IsKept top nodes (pulls + n) g1 s1 fits v.1,
          )

      -- Over any number of rounds of churn, with a source whose requests fit the room asked for, every
      -- node keeps an exact total within the footprint cap and never has more residents than it may: what
      -- bounds their number at the start bounds it at the end.
      pub churn_loop-IsKept :
          (top warm rounds rd : ℕ) (nodes : List ClusterNode) (g : G) (s : S)
          (early : Option (Stat W)) (late : Late W)
          → Fits src
          → All (IsKept top) nodes
          → All (IsKept top) (churn_loop warm rounds rd nodes g s early late).0
      unfolding churn_loop
      churn_loop-IsKept top warm zero rd nodes g s early late fits v = v
      churn_loop-IsKept top warm (suc rounds) rd nodes g s early late fits v =
          let (nodes', pulls, g', s') = churn_round nodes 0 g s in
          churn_loop-IsKept top warm rounds (rd + 1) nodes' g' s' _ _ fits
            (churn_round-IsKept top nodes 0 g s fits v)
