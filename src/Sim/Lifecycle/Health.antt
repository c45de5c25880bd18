-- ===== src/Sim/Lifecycle/Health.antt =====
-- The state of the nodes of puls-engine/sim/lifecycle.cpp over the rounds of its main loop.
use puls_rfc.Prelude.{
  ℕ, zero, suc, ◌+◌, ◌-◌, ◌≤◌, ◌<◌, ◌≡◌, refl, ◌⊎◌, some, List, [], ◌∷◌, ◌++◌, arith, length,
  sum_by, All, All-append, length-append,
}
use puls_rfc.Double.{Double, IsOrdered}
use puls_rfc.OperatingPoint.{OperatingPoint}
use puls_rfc.RequestSource.{RequestSource}
use puls_rfc.Steering.Budget.{DepthsInRange}
use puls_rfc.Sim.Lifecycle.Prefill.{SimPrefill, prefill_batches, progress, hand_over}
use puls_rfc.Sim.Lifecycle.Decode.{Tally, Filling, decode_batches}
use puls_rfc.Sim.Lifecycle.Measure.{LifeNode, Sums, no_sums}
use puls_rfc.Sim.Lifecycle.Defs.{
  Samplers, sample_dtot, gated_sample, fresh_prefills, keep_prefills, life_round, serve_nodes,
}
use puls_rfc.Sim.Lifecycle.Loop.{Totals, life_loop}
use puls_rfc.Sim.Lifecycle.Disjoint.{
  IsOpen, IsFinished, prefill_batches-AreDisjoint, progress-le, length-progress, hand_over_lem,
}
use puls_rfc.Sim.Lifecycle.Balance.{total, decode_round-IsBalanced}

-- The prefill pool is full of unfinished requests, the finished ones wait beside it, and they wait
-- only while the decode pool is full.
pub record IsHealthy {W S : Type 0} (op : OperatingPoint W) (top : ℕ) (n : LifeNode S)
    : Type 0 where
  pub unfinished : All (IsOpen top) n.pf
  pub full : length n.pf ≡ op.prefill_pool
  pub finished : All IsFinished n.ready
  pub fits : length n.dec ≤ op.decode_pool
  pub backlog : (n.ready ≡ []) ⊎ (length n.dec ≡ op.decode_pool)

abbrev pub residents : {S : Type 0} → List (LifeNode S) → ℕ
residents nodes = sum_by (λ n. length n.dec) nodes

-- Every admission is resident or completed, and every completion has its class.
pub record IsTallied {S : Type 0} (nodes : List (LifeNode S)) (t : Tally) : Type 0 where
  pub admitted : total t.admit_cls ≡ residents nodes + t.completions
  pub completed : total t.comp_cls ≡ t.completions

module _ {W : Type 0} ⦃d : Double W⦄ {G : Type 0} (k : Samplers W G) (top : ℕ) where
  -- The repeated draw always comes to a length, a positive one up to `top`.
  abbrev pub IsSupplied : Type 0
  IsSupplied = (g : G) → (p : ℕ) × ((gated_sample k k.draws g).0 ≡ some p) × (0 < p) × (p ≤ top)

  fresh_prefills_lem :
      (n : ℕ) (pf : List SimPrefill) (g : G)
      → IsSupplied
      → All (IsOpen top) pf
      → (let pf' = (fresh_prefills k n pf g).0 in
          All (IsOpen top) pf' × (length pf' ≡ length pf + n))
  unfolding fresh_prefills
  fresh_prefills_lem zero pf g supplied h = (h, omega arith)
  fresh_prefills_lem (suc n) pf g supplied h =
      let (p, e, positive, small) = supplied g in
      let (dtot, g2) = sample_dtot k (gated_sample k k.draws g).1 in
      let q : SimPrefill = record { prompt = p; dtot = dtot; processed = 0; wait = 0 } in
      let (all, size) =
        fresh_prefills_lem n (pf ++ q ∷ []) g2 supplied
          (All-append (IsOpen top) pf (q ∷ []) h ((positive, small), tt)) in
      rw (e, fresh_prefills) (all, omega (arith, size, length-append pf (q ∷ [])))

  module _ (op : OperatingPoint W) (laws : IsOrdered W) {S : Type 0} (src : RequestSource W S) where
    -- What a node's round adds to the counters, beside what it does to the pool.
    abbrev Counts : LifeNode S → Tally → LifeNode S → Tally → Type 0
    Counts n t n' t' =
        (total t'.admit_cls + length n.dec + t.completions
          ≡ total t.admit_cls + length n'.dec + t'.completions)
        × (total t'.comp_cls + t.completions ≡ total t.comp_cls + t'.completions)

    life_round-IsHealthy :
        (n : LifeNode S) (t : Tally) (g : G) (r : Sums W)
        → DepthsInRange op top
        → IsSupplied
        → IsHealthy op top n
        → (let (n', t', g', r') = life_round k op src n t g r in
            IsHealthy op top n' × Counts n t n' t')
    unfolding life_round keep_prefills
    life_round-IsHealthy n t g r range supplied v =
        let (one, two) = prefill_batches op n.pf in
        let (disjoint, s1, s2) = prefill_batches-AreDisjoint op laws top n.pf range v.unfinished in
        let moved = progress one.chunks two.chunks n.pf in
        let h = hand_over moved n.ready in
        let (open_, done, size, fewer) =
          hand_over_lem top moved n.ready
            (progress-le top n.pf one.chunks two.chunks v.unfinished disjoint) v.finished in
        let f : Filling S = record { pool = n.dec; ready = h.1; source = n.source; tally = t } in
        let (b, filled) = decode_round-IsBalanced op src (decode_batches op n.dec).2 f v.fits in
        let (all, grown) = fresh_prefills_lem (op.prefill_pool - length h.0) h.0 g supplied open_ in
        (
          record {
            unfinished = all;
            full = omega (arith, grown, fewer, v.full, length-progress one.chunks two.chunks n.pf);
            finished = b.finished done;
            fits = filled.0;
            backlog = filled.1;
          },
          (b.admitted, b.completed),
        )

    abbrev Kept : List (LifeNode S) × Tally × G × Sums W → List (LifeNode S) → Tally → Type 0
    Kept (nodes', t', g', r') nodes t =
        All (IsHealthy op top) nodes'
        × (total t'.admit_cls + residents nodes + t.completions
            ≡ total t.admit_cls + residents nodes' + t'.completions)
        × (total t'.comp_cls + t.completions ≡ total t.comp_cls + t'.completions)

    serve_nodes-IsHealthy :
        (nodes : List (LifeNode S)) (t : Tally) (g : G) (r : Sums W)
        → DepthsInRange op top
        → IsSupplied
        → All (IsHealthy op top) nodes
        → Kept (serve_nodes k op src nodes t g r) nodes t
    unfolding serve_nodes
    serve_nodes-IsHealthy [] t g r range supplied v = (tt, refl, refl)
    serve_nodes-IsHealthy (n ∷ ns) t g r range supplied v =
        let (n', t1, g1, r1) = life_round k op src n t g r in
        let (v', (admitted, completed)) = life_round-IsHealthy n t g r range supplied v.0 in
        let (vs, more, rest) = serve_nodes-IsHealthy ns t1 g1 r1 range supplied v.1 in
        ((v', vs), omega (arith, admitted, more), omega (arith, completed, rest))

    -- Over any number of rounds of the main loop, from healthy nodes whose counters tally: every node
    -- keeps its prefill pool full of unfinished requests, has finished prefills wait only while its
    -- decode pool is full, and stays within `decode_pool`, and every admission is resident or completed.
    -- This is for a sampler that always comes to a positive length up to `top`, doubles in order, and
    -- every depth up to `top` in range of the prefill steering's first `best_dist`.
    pub life_loop-IsHealthy :
        (warm rounds it : ℕ) (nodes : List (LifeNode S)) (t : Tally) (g : G) (totals : Totals W)
        → DepthsInRange op top
        → IsSupplied
        → All (IsHealthy op top) nodes
        → IsTallied nodes t
        → (let (nodes', t', g', totals') = life_loop k op src warm rounds it nodes t g totals in
            All (IsHealthy op top) nodes' × IsTallied nodes' t')
    unfolding life_loop
    life_loop-IsHealthy warm zero it nodes t g totals range supplied v c = (v, c)
    life_loop-IsHealthy warm (suc rounds) it nodes t g totals range supplied v c =
        let (nodes', t', g', r) = serve_nodes k op src nodes t g no_sums in
        let (v', admitted, completed) = serve_nodes-IsHealthy nodes t g no_sums range supplied v in
        life_loop-IsHealthy warm rounds (it + 1) nodes' t' g' _ range supplied v' (record {
          admitted = omega (arith, admitted, c.admitted);
          completed = omega (arith, completed, c.completed);
        })
