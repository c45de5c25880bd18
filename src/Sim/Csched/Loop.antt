-- ===== src/Sim/Csched/Loop.antt =====
-- The population and the cache of puls-engine/sim/csched.cpp over the rounds of its main loop.
use puls_rfc.Prelude.{
  ℕ, zero, suc, ◌+◌, ◌<◌, ◌≡◌, ◌≢◌, refl, inl, inr, Bool, true, false, Option, none, some, List, [],
  ◌∷◌, leb, length, sum_by, length-append, Bool-cases, Option-cases, arith, if◌then◌else◌, subst,
  sym, ◌∙◌, ◌&&◌, ltb,
}
use puls_rfc.Double.{Double, IsOrdered}
use puls_rfc.Queue.{Request, push}
use puls_rfc.Cache.{ClusterCache, CacheResult, hit, miss_reload, miss_recompute, peek, evict_tick}
use puls_rfc.Cache.Accounting.{
  IsValid, on_complete-IsValid, evict_tick-IsValid, enforce_budget-IsValid,
}
use puls_rfc.Cache.Answers.{lookup-IsLookup}
use puls_rfc.Cache.Nodes.{
  IsLocal, on_complete-IsLocal, evict_tick-IsLocal, enforce_budget-IsLocal, lookup-IsLocal,
  peek-node,
}
use puls_rfc.Sim.Pending.{due, length-due}
use puls_rfc.Sim.Pools.{PoolSums, no_pools, note_pool, book_pools}
use puls_rfc.Sim.Ttft.{Books}
use puls_rfc.Sim.Workload.{MultiTurnWorkload, fresh_arrival}
use puls_rfc.Sim.Csched.State.{Knobs, Shared, CschedNode}
use puls_rfc.Sim.Csched.Defs.{serve_node, spill}
use puls_rfc.Sim.Csched.Round.{
  pool_view, hold, holder, route_due, spill_all, serve_all, round_step, csched_loop,
}
use puls_rfc.Sim.Csched.Caches.{CacheInvariant, serve_all-Keeps}
use puls_rfc.Sim.Csched.Population.{serve_node-population}
use puls_rfc.Sim.Csched.Spill.{spill_lem}

-- The decoders and the affine requests of all nodes.
abbrev pub on_nodes : List CschedNode → ℕ
on_nodes nodes = sum_by (λ n. length n.pool + length n.aff) nodes

-- All requests: on a node, in the queue, or to return.
abbrev pub everyone : {W G : Type 0} → List CschedNode × Shared W G → ℕ
everyone (nodes, s) = on_nodes nodes + (length s.queue.q + length s.pend)

hold_lem :
    (node : ℕ) (r : Request) (nodes : List CschedNode)
    → node < length nodes
    → (on_nodes (hold node r nodes) ≡ on_nodes nodes + 1)
      × (length (hold node r nodes) ≡ length nodes)
unfolding hold
hold_lem node r [] h = absurd (omega arith)
hold_lem zero r (n ∷ ns) h = (omega (arith, length-append n.aff (r ∷ [])), refl)
hold_lem (suc node) r (n ∷ ns) h =
    let (more, same) = hold_lem node r ns (omega arith) in
    (omega (arith, more), omega (arith, same))

module _ {W : Type 0} ⦃d : Double W⦄ where
  -- The accounts of the cache are valid, and its entries name the first `z` nodes only.
  pub record IsSound (z : ℕ) (c : ClusterCache W) : Type 0 where
    pub valid : IsValid c
    pub local : IsLocal z c

  pub IsSound-CacheInvariant : (z : ℕ) → CacheInvariant z (IsSound z)
  IsSound-CacheInvariant z = record {
    completed = λ node id len now c near v. record {
      valid = on_complete-IsValid node id len now c v.valid;
      local = on_complete-IsLocal z node id len now c near v.local;
    };
    evicted = λ now c v. record {
      valid = evict_tick-IsValid now c v.valid;
      local = evict_tick-IsLocal z now c v.local;
    };
    answered = λ id now c v. record {
      valid = (lookup-IsLookup id now c v.valid).valid;
      local = lookup-IsLocal z id now c v.local;
    };
    enforced = λ node budget c v. record {
      valid = (enforce_budget-IsValid node budget c (suc node) v.valid (λ e. omega arith)).0;
      local = enforce_budget-IsLocal z node budget c v.local;
    };
  }

  holder-node :
      (z n : ℕ) (c : ClusterCache W) (r : Request) → IsLocal z c → holder c r ≡ some n → n < z
  unfolding holder
  holder-node z n c r v h =
      by_answer (peek r.id c).result (peek r.id c).node (λ e. peek-node z r.id n c v e) h
    where
      by_answer :
          (result : CacheResult) (node : Option ℕ)
          → (node ≡ some n → n < z)
          → (elim result as (λ x. Option ℕ) [
            | hit ↦ node
            | miss_reload ↦ none
            | miss_recompute ↦ none
          ])
            ≡ some n
          → n < z
      by_answer hit place near h = near h
      by_answer miss_reload place near h = absurd (cc)
      by_answer miss_recompute place near h = absurd (cc)

  module _ {G : Type 0} (k : Knobs W G) (top : ℕ) where
    route_due-everyone :
        (rs : List Request) (nodes : List CschedNode) (s : Shared W G)
        → IsLocal top s.books.cache
        → length nodes ≡ top
        → (let (nodes', s') = route_due k rs nodes s in
            (everyone (nodes', s') ≡ everyone (nodes, s) + length rs)
            × (length nodes' ≡ top)
            × (s'.books ≡ s.books))
    unfolding route_due push
    route_due-everyone [] nodes s v size = (omega arith, size, refl)
    route_due-everyone (r ∷ rs) nodes s v size =
        elim (Option-cases (if k.affinity then holder s.books.cache r else none)) [
          | inl e ↦
              let s1 = record s { queue = push r s.queue } in
              let (all, size', same) = route_due-everyone rs nodes s1 v size in
              rw (e, route_due) (omega (arith, all, length-append s.queue.q (r ∷ [])), size', same)
          | inr (n, e) ↦
              let near = affine k.affinity e in
              let (more, len) = hold_lem n r nodes (omega arith) in
              let (all, size', same) = route_due-everyone rs (hold n r nodes) s v (omega arith) in
              rw (e, route_due) (omega (arith, all, more), size', same)
        ]
      where
        affine :
            {n : ℕ} (on : Bool) → (if on then holder s.books.cache r else none) ≡ some n → n < top
        affine {n} true e = holder-node top n s.books.cache r v e
        affine false e = absurd (cc)

    spill_all-everyone :
        (now : ℕ) (nodes : List CschedNode) (s : Shared W G)
        → (let (nodes', s') = spill_all k now nodes s in
            (everyone (nodes', s') ≡ everyone (nodes, s))
            × (length nodes' ≡ length nodes)
            × (s'.books ≡ s.books))
    unfolding spill_all
    spill_all-everyone now [] s = (refl, refl, refl)
    spill_all-everyone now (n ∷ ns) s =
        let (aff, g, spills) =
          spill now k.aff_spill_cap (length n.aff) 0 n.aff s.queue s.aff_spills in
        let (moved, counted, young) = spill_lem now k.aff_spill_cap n.aff s.queue s.aff_spills in
        let (all, size, same) =
          spill_all-everyone now ns (record s { queue = g; aff_spills = spills }) in
        (omega (arith, all, moved), omega (arith, size), same)

    -- The sampler's draws suffice: an arrival never fails for want of a sample within the cutoff.
    abbrev pub AlwaysArrives : Type 0
    AlwaysArrives =
        (now : ℕ) (w : MultiTurnWorkload G)
        → (fresh_arrival k.random k.turns k.sample_b k.edge_cutoff k.draws now w).0 ≢ none

    module _ (laws : IsOrdered W) (arrives : AlwaysArrives) where
      serve_all-everyone :
          (z now : ℕ) (measured : Bool) (nodes : List CschedNode) (s : Shared W G) (r : PoolSums W)
          → (let (nodes', s', r') = serve_all k z now measured nodes s r in
              (everyone (nodes', s') ≡ everyone (nodes, s)) × (length nodes' ≡ length nodes))
      unfolding serve_all
      serve_all-everyone z now measured [] s r = (refl, refl)
      serve_all-everyone z now measured (n ∷ ns) s r =
          let (n', s1) = serve_node k z now measured n s in
          let one = serve_node-population k z now measured laws n s (arrives now) in
          let (all, size) =
            serve_all-everyone (suc z) now measured ns s1
              (note_pool measured (pool_view n'.pool) r) in
          (omega (arith, one, all), omega (arith, size))

      -- What the state of the cluster is after a round: the requests of before, the same nodes, and a
      -- sound cache.
      abbrev IsRound : List CschedNode × Shared W G → List CschedNode × Shared W G → Type 0
      IsRound before after =
          (everyone after ≡ everyone before)
          × (length after.0 ≡ top)
          × IsSound top after.1.books.cache

      book_pools-cache :
          (measured : Bool) (r : PoolSums W) (b : Books W)
          → (book_pools measured r b).cache ≡ b.cache
      unfolding book_pools
      book_pools-cache measured r b = elim (Bool-cases (measured && ltb 0 r.nodes)) [
        | inl on ↦ rw (on, book_pools) refl
        | inr off ↦ rw (off, book_pools) refl
      ]

      spilled-everyone :
          (on : Bool) (now : ℕ) (nodes : List CschedNode) (s : Shared W G)
          → (let after = if on then spill_all k now nodes s else (nodes, s) in
              (everyone after ≡ everyone (nodes, s))
              × (length after.0 ≡ length nodes)
              × (after.1.books ≡ s.books))
      spilled-everyone true now nodes s = spill_all-everyone now nodes s
      spilled-everyone false now nodes s = (refl, refl, refl)

      round_step-IsRound :
          (now : ℕ) (measured : Bool) (nodes : List CschedNode) (s : Shared W G)
          → length nodes ≡ top
          → IsSound top s.books.cache
          → IsRound (nodes, s) (round_step k now measured nodes s)
      unfolding round_step
      round_step-IsRound now measured nodes s size v =
          let ticked = (IsSound-CacheInvariant top).evicted now s.books.cache v in
          let out = due now s.pend in
          let s0 : Shared W G = record s {
            books = record s.books { cache = evict_tick now s.books.cache };
            pend = out.1;
          } in
          let routed = route_due k out.0 nodes s0 in
          let (all, size1, same1) = route_due-everyone out.0 nodes s0 ticked.local size in
          let spilled : List CschedNode × Shared W G =
            if k.affinity then spill_all k now routed.0 routed.1 else routed in
          let (all2, size2, same2) = spilled-everyone k.affinity now routed.0 routed.1 in
          let sound : IsSound top spilled.1.books.cache =
            subst (λ b. IsSound top b.cache) (sym (same2 ∙ same1)) ticked in
          let (nodes', s', r) = serve_all k 0 now measured spilled.0 spilled.1 no_pools in
          let (all3, size3) = serve_all-everyone 0 now measured spilled.0 spilled.1 no_pools in
          (
            omega (arith, all, all2, all3, length-due now s.pend),
            omega (arith, size1, size2, size3),
            subst (IsSound top) (sym (book_pools-cache measured r s'.books)) (
                serve_all-Keeps k top (IsSound-CacheInvariant top) 0 now measured spilled.0
                  spilled.1 no_pools (omega (arith, size1, size2)) sound),
          )

      -- Over any number of rounds of the composed scheduler's main loop, with doubles in order and a
      -- sampler that always finds a length within the cutoff, from a cache with valid accounts whose
      -- entries name existing nodes: the population of nodes, queue and pending returns stays the same,
      -- no node is lost, and the cache stays as it was described.
      pub csched_loop-IsRound :
          (warm rounds it : ℕ) (nodes : List CschedNode) (s : Shared W G)
          → length nodes ≡ top
          → IsSound top s.books.cache
          → (let (nodes', s') = csched_loop k warm rounds it nodes s in
              (everyone (nodes', s') ≡ everyone (nodes, s))
              × (length nodes' ≡ top)
              × IsSound top s'.books.cache)
      unfolding csched_loop
      csched_loop-IsRound warm zero it nodes s size v = (refl, size, v)
      csched_loop-IsRound warm (suc rounds) it nodes s size v =
          let (all, size', v') = round_step-IsRound it (leb warm it) nodes s size v in
          let (nodes', s') = round_step k it (leb warm it) nodes s in
          let (rest, last, sound) = csched_loop-IsRound warm rounds (it + 1) nodes' s' size' v' in
          (omega (arith, all, rest), last, sound)
