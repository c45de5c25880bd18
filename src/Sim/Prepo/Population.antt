-- ===== src/Sim/Prepo/Population.antt =====
-- The population of puls-engine/sim/prepo.cpp over the rounds of its main loop.
use puls_rfc.Prelude.{
  ℕ, zero, suc, ◌+◌, ◌≤◌, ◌≡◌, ◌≢◌, refl, Bool, true, false, none, List, [], ◌∷◌, leb, length,
  sum_by, All, arith,
}
use puls_rfc.Double.{Double, IsOrdered}
use puls_rfc.Cache.{evict_tick}
use puls_rfc.Sim.Pending.{due, push_all, length-due, length-push_all}
use puls_rfc.Sim.Workload.{MultiTurnWorkload, fresh_arrival}
use puls_rfc.Sim.Csched.{Knobs}
use puls_rfc.Sim.Prepo.{PrepoState, serve_batch, serve_batch-population}
use puls_rfc.Sim.Prepo.Round.{PrepoNode, serve_nodes, round_step, prepo_loop}

-- All requests: in a batch, in the queue, or to return.
abbrev pub everyone : {W G : Type 0} → List PrepoNode × PrepoState W G → ℕ
everyone (nodes, s) =
    sum_by (λ n. length n.0 + length n.1) nodes + (length s.queue.q + length s.pend)

-- No batch of a node is larger than `full`.
abbrev pub AreWithin : ℕ → List PrepoNode → Type 0
AreWithin full nodes = All (λ n. (length n.0 ≤ full) × (length n.1 ≤ full)) nodes

module _ {W : Type 0} ⦃d : Double W⦄ {G : Type 0} (k : Knobs W G) (laws : IsOrdered W) where
  -- The sampler's draws suffice: an arrival never fails for want of a sample within the cutoff.
  abbrev pub AlwaysArrives : Type 0
  AlwaysArrives =
      (now : ℕ) (w : MultiTurnWorkload G)
      → (fresh_arrival k.random k.turns k.sample_b k.edge_cutoff k.draws now w).0 ≢ none

  abbrev Keeps : List PrepoNode × PrepoState W G → List PrepoNode × PrepoState W G → Type 0
  Keeps before after =
      (everyone after ≡ everyone before) × AreWithin k.deployment.op.decode_count_target after.0

  serve_nodes-Keeps :
      (z now : ℕ) (measured : Bool) (nodes : List PrepoNode) (s : PrepoState W G)
      → AlwaysArrives
      → AreWithin k.deployment.op.decode_count_target nodes
      → Keeps (nodes, s) (serve_nodes k z now measured nodes s)
  unfolding serve_nodes
  serve_nodes-Keeps z now measured [] s arrives fits = (refl, tt)
  serve_nodes-Keeps z now measured ((a, b) ∷ nodes) s arrives fits =
      let (a', s1) = serve_batch k z now measured false a s in
      let (same1, fits1) =
        serve_batch-population k z now measured false a s laws (arrives now) fits.0.0 in
      let (b', s2) = serve_batch k z now measured true b s1 in
      let (same2, fits2) =
        serve_batch-population k z now measured true b s1 laws (arrives now) fits.0.1 in
      let (same3, rest) = serve_nodes-Keeps (suc z) now measured nodes s2 arrives fits.1 in
      (omega (arith, same1, same2, same3), ((fits1, fits2), rest))

  round_step-Keeps :
      (now : ℕ) (measured : Bool) (nodes : List PrepoNode) (s : PrepoState W G)
      → AlwaysArrives
      → AreWithin k.deployment.op.decode_count_target nodes
      → Keeps (nodes, s) (round_step k now measured nodes s)
  unfolding round_step
  round_step-Keeps now measured nodes s arrives fits =
      let out = due now s.pend in
      let s1 : PrepoState W G = record s {
        books = record s.books { cache = evict_tick now s.books.cache };
        pend = out.1;
        queue = push_all out.0 s.queue;
      } in
      let (same, within) = serve_nodes-Keeps 0 now measured nodes s1 arrives fits in
      (omega (arith, same, length-push_all out.0 s.queue, length-due now s.pend), within)

  -- Over any number of rounds of the main loop, from batches of at most `decode_count_target`, with
  -- doubles in order and a sampler that always finds a length within the cutoff: the batches, the queue
  -- and the pending returns together hold as many requests as before, and no batch exceeds
  -- `decode_count_target`.
  pub prepo_loop-Keeps :
      (warm rounds it : ℕ) (nodes : List PrepoNode) (s : PrepoState W G)
      → AlwaysArrives
      → AreWithin k.deployment.op.decode_count_target nodes
      → (let (nodes', s') = prepo_loop k warm rounds it nodes s in
          (everyone (nodes', s') ≡ everyone (nodes, s))
          × AreWithin k.deployment.op.decode_count_target nodes')
  unfolding prepo_loop
  prepo_loop-Keeps warm zero it nodes s arrives fits = (refl, fits)
  prepo_loop-Keeps warm (suc rounds) it nodes s arrives fits =
      let (same, within) = round_step-Keeps it (leb warm it) nodes s arrives fits in
      let (nodes', s') = round_step k it (leb warm it) nodes s in
      let (more, last) = prepo_loop-Keeps warm rounds (it + 1) nodes' s' arrives within in
      (omega (arith, same, more), last)
