-- ===== src/Sim/Lifecycle/Life.antt =====
-- The state of the nodes of puls-engine/sim/lifecycle.cpp from the cold start on.
use puls_rfc.Prelude.{
  ℕ, zero, suc, ◌+◌, ◌<◌, ◌≡◌, refl, inl, List, [], ◌∷◌, ◌++◌, pos_part, arith, length, All,
  All-append, length-append, length-replicate, sum_by, replicate, ◌∙◌, ap,
}
use puls_rfc.Double.{Double, IsOrdered}
use puls_rfc.OperatingPoint.{OperatingPoint}
use puls_rfc.RequestSource.{RequestSource}
use puls_rfc.Cluster.{ClusterNode, gate}
use puls_rfc.Cluster.Placement.{length-cold_start}
use puls_rfc.Steering.Budget.{DepthsInRange}
use puls_rfc.Sim.Lifecycle.Prefill.{SimPrefill}
use puls_rfc.Sim.Lifecycle.Decode.{SimDecoder, Tally}
use puls_rfc.Sim.Lifecycle.Measure.{LifeNode, Sums, no_sums, nat}
use puls_rfc.Sim.Lifecycle.Defs.{Samplers, sample_dtot, gated_sample, life_round, serve_nodes}
use puls_rfc.Sim.Lifecycle.Loop.{Totals, cold_nodes, start_node, seed_prefills, life_loop}
use puls_rfc.Sim.Lifecycle.Start.{no_tally, start_decoders, start_prefills, start_nodes, life}
use puls_rfc.Sim.Lifecycle.Disjoint.{IsOpen}
use puls_rfc.Sim.Lifecycle.Cold.{IsWithin, start_decoders-IsCounted}
use puls_rfc.Sim.Lifecycle.Health.{IsHealthy, IsTallied, IsSupplied, residents, life_loop-IsHealthy}

module _ {W : Type 0} ⦃d : Double W⦄ {G : Type 0} (k : Samplers W G) (op : OperatingPoint W) where
  module _ {S : Type 0} (src : RequestSource W S) where
    length-start_decoders :
        (nds : List ClusterNode) (own : List (S × G)) (t : Tally)
        → length nds ≡ length own
        → length (start_decoders k op src nds own t).0 ≡ length own
    unfolding start_decoders
    length-start_decoders [] [] t e = refl
    length-start_decoders [] (o ∷ own) t e = absurd (omega arith)
    length-start_decoders (nd ∷ nds) [] t e = absurd (omega arith)
    length-start_decoders (nd ∷ nds) ((s, g) ∷ own) t e =
        let (pool, s', g', t1) = start_node k op src nd s g t in
        ap suc (length-start_decoders nds own t1 (omega arith))

    length-start_prefills :
        (pools : List (List SimDecoder × S)) (g : G)
        → length (start_prefills k op src pools g).0 ≡ length pools
    unfolding start_prefills
    length-start_prefills [] g = refl
    length-start_prefills ((dec, s) ∷ pools) g =
        let (pf, g1) = seed_prefills k op op.prefill_pool [] g in
        ap suc (length-start_prefills pools g1)

    length-start_nodes :
        (shuffle : List ℕ → List ℕ) (draw : List ℕ) (own : List (S × G)) (g : G)
        → length (start_nodes k op src shuffle draw own g).0 ≡ length own
    unfolding start_nodes cold_nodes
    length-start_nodes shuffle draw own g =
        let bare : ClusterNode = record { lengths = []; total = 0 } in
        let bares = replicate (length own) bare in
        let placed = cold_nodes k op src shuffle draw bares in
        let (pools, t) = start_decoders k op src placed own no_tally in
        length-start_prefills pools g
        ∙ length-start_decoders placed own no_tally (
            length-cold_start op shuffle (gate op draw).kept bares
            ∙ length-replicate (length own) bare)

    length-serve_nodes :
        (nodes : List (LifeNode S)) (t : Tally) (g : G) (r : Sums W)
        → length (serve_nodes k op src nodes t g r).0 ≡ length nodes
    unfolding serve_nodes
    length-serve_nodes [] t g r = refl
    length-serve_nodes (n ∷ ns) t g r =
        let (n', t1, g1, r1) = life_round k op src n t g r in
        ap suc (length-serve_nodes ns t1 g1 r1)

    length-life_loop :
        (warm rounds it : ℕ) (nodes : List (LifeNode S)) (t : Tally) (g : G) (totals : Totals W)
        → length (life_loop k op src warm rounds it nodes t g totals).0 ≡ length nodes
    unfolding life_loop
    length-life_loop warm zero it nodes t g totals = refl
    length-life_loop warm (suc rounds) it nodes t g totals =
        let (nodes', t', g', r) = serve_nodes k op src nodes t g no_sums in
        length-life_loop warm rounds (it + 1) nodes' t' g' _ ∙ length-serve_nodes nodes t g no_sums

    -- A fraction of a positive length is below it.
    abbrev pub IsFraction : Type 0
    IsFraction =
        (g : G) (p : ℕ) → 0 < p → pos_part (d.trunc (d.mul (k.random.uniform_real g).0 (nat p))) < p

    module _ (top : ℕ) (supplied : IsSupplied k top) (fraction : IsFraction) where
      seed_prefills_lem :
          (n : ℕ) (pf : List SimPrefill) (g : G)
          → All (IsOpen top) pf
          → (let pf' = (seed_prefills k op n pf g).0 in
              All (IsOpen top) pf' × (length pf' ≡ length pf + n))
      unfolding seed_prefills
      seed_prefills_lem zero pf g h = (h, omega arith)
      seed_prefills_lem (suc n) pf g h =
          let (p, e, positive, small) = supplied g in
          let (dtot, g2) = sample_dtot k (gated_sample k k.draws g).1 in
          let (u, g3) = k.random.uniform_real g2 in
          let q : SimPrefill = record {
            prompt = p;
            dtot = dtot;
            processed = pos_part (d.trunc (d.mul u (nat p)));
            wait = 0;
          } in
          let (all, size) =
            seed_prefills_lem n (pf ++ q ∷ []) g3
              (All-append (IsOpen top) pf (q ∷ []) h ((fraction g2 p positive, small), tt)) in
          rw (e, seed_prefills) (all, omega (arith, size, length-append pf (q ∷ [])))

      start_prefills-IsHealthy :
          (pools : List (List SimDecoder × S)) (g : G)
          → All (IsWithin k op src) pools
          → (let nodes = (start_prefills k op src pools g).0 in
              All (IsHealthy op top) nodes × (residents nodes ≡ sum_by (λ p. length p.0) pools))
      unfolding start_prefills
      start_prefills-IsHealthy [] g within = (tt, refl)
      start_prefills-IsHealthy ((dec, s) ∷ pools) g (here, within) =
          let (pf, g1) = seed_prefills k op op.prefill_pool [] g in
          let (all, size) = seed_prefills_lem op.prefill_pool [] g tt in
          let (rest, sum) = start_prefills-IsHealthy pools g1 within in
          (
            (
              record {
                unfinished = all;
                full = omega (arith, size);
                finished = tt;
                fits = here;
                backlog = inl refl;
              },
              rest,
            ),
            omega (arith, sum),
          )

      start_nodes-IsHealthy :
          (shuffle : List ℕ → List ℕ) (draw : List ℕ) (own : List (S × G)) (g : G)
          → (let (nodes, t, g') = start_nodes k op src shuffle draw own g in
              All (IsHealthy op top) nodes × IsTallied nodes t)
      unfolding start_nodes
      start_nodes-IsHealthy shuffle draw own g =
          let placed =
            cold_nodes k op src shuffle draw
              (replicate (length own) (record { lengths = []; total = 0 })) in
          let (pools, t) = start_decoders k op src placed own no_tally in
          let (within, sum, none_done, none_classed) =
            start_decoders-IsCounted k op src placed own no_tally in
          let (healthy, same) = start_prefills-IsHealthy pools g within in
          (
            healthy,
            record {
              admitted = omega (arith, sum, same, none_done);
              completed = omega (arith, none_classed, none_done);
            },
          )

      -- The simulation from its cold start, over any number of rounds: no node is lost, every node has a full prefill pool
      -- of unfinished requests, lets finished ones wait only while its decode pool is full, and stays
      -- within `decode_pool`, and every admission is resident or completed. This is for a sampler that
      -- always comes to a positive length up to `top`, fractions of a length below it, doubles in order,
      -- and every depth up to `top` in range of the prefill steering's first `best_dist`.
      pub life-IsHealthy :
          (laws : IsOrdered W)
          → DepthsInRange op top
          → (shuffle : List ℕ → List ℕ) (draw : List ℕ) (warm rounds : ℕ) (own : List (S × G))
            (g : G) (totals : Totals W)
          → (let (nodes, t, g', totals') = life k op src shuffle draw warm rounds own g totals in
              (length nodes ≡ length own) × All (IsHealthy op top) nodes × IsTallied nodes t)
      unfolding life
      life-IsHealthy laws range shuffle draw warm rounds own g totals =
          let (nodes, t, g') = start_nodes k op src shuffle draw own g in
          let (healthy, tallied) = start_nodes-IsHealthy shuffle draw own g in
          let lasting = length-life_loop warm rounds 0 nodes t g' totals in
          let (healthy', tallied') =
            life_loop-IsHealthy k top op laws src warm rounds 0 nodes t g' totals range supplied
              healthy tallied in
          (lasting ∙ length-start_nodes shuffle draw own g, healthy', tallied')
