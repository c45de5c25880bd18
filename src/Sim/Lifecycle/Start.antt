-- ===== src/Sim/Lifecycle/Start.antt =====
-- The cold start of all nodes of puls-engine/sim/lifecycle.cpp: each node has a source and a generator
-- of its own, and the prefill pools share one generator.
use puls_rfc.Prelude.{ℕ, List, [], ◌∷◌, length, replicate}
use puls_rfc.Double.{Double}
use puls_rfc.OperatingPoint.{OperatingPoint}
use puls_rfc.RequestSource.{RequestSource}
use puls_rfc.Cluster.{ClusterNode}
use puls_rfc.Sim.Lifecycle.Decode.{SimDecoder, Tally}
use puls_rfc.Sim.Lifecycle.Measure.{LifeNode}
use puls_rfc.Sim.Lifecycle.Defs.{Samplers}
use puls_rfc.Sim.Lifecycle.Loop.{Totals, cold_nodes, start_node, seed_prefills, life_loop}

abbrev pub no_tally : Tally
no_tally = record { transitions = 0; completions = 0; admit_cls = (0, 0, 0); comp_cls = (0, 0, 0) }

module _ {W : Type 0} ⦃d : Double W⦄ {G : Type 0} (k : Samplers W G) (op : OperatingPoint W)
    {S : Type 0} (src : RequestSource W S) where
  -- The decode pools, from the lengths placed on each node, with `dec_src[z]` and `node_rng[z]`.
  unfoldable pub start_decoders :
      List ClusterNode → List (S × G) → Tally → List (List SimDecoder × S) × Tally
  unfolding start_node
  start_decoders (nd ∷ nds) ((s, g) ∷ own) t =
      let (pool, s', g', t1) = start_node k op src nd s g t in
      let (pools, t2) = start_decoders nds own t1 in ((pool, s') ∷ pools, t2)
  start_decoders _ _ t = ([], t)

  unfoldable pub start_prefills : List (List SimDecoder × S) → G → List (LifeNode S) × G
  unfolding seed_prefills
  start_prefills [] g = ([], g)
  start_prefills ((dec, s) ∷ pools) g =
      let (pf, g1) = seed_prefills k op op.prefill_pool [] g in
      let (nodes, g2) = start_prefills pools g1 in
      (record { dec = dec; pf = pf; ready = []; source = s } ∷ nodes, g2)

  unfoldable pub start_nodes :
      (List ℕ → List ℕ) → List ℕ → List (S × G) → G → List (LifeNode S) × Tally × G
  unfolding cold_nodes start_decoders start_prefills
  start_nodes shuffle draw own g =
      let placed =
        cold_nodes k op src shuffle draw
          (replicate (length own) (record { lengths = []; total = 0 })) in
      let (pools, t) = start_decoders placed own no_tally in
      let (nodes, g') = start_prefills pools g in (nodes, t, g')

  -- The cold start and the rounds.
  unfoldable pub life :
      (List ℕ → List ℕ)
      → List ℕ
      → ℕ
      → ℕ
      → List (S × G)
      → G
      → Totals W
      → List (LifeNode S) × Tally × G × Totals W
  unfolding start_nodes life_loop
  life shuffle draw warm rounds own g totals =
      let (nodes, t, g') = start_nodes shuffle draw own g in
      life_loop k op src warm rounds 0 nodes t g' totals
