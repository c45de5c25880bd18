-- ===== src/Sim/Baseline/Round.antt =====
-- The rounds of puls-engine/sim/baseline.cpp over all nodes, with the diagnosis of the pools, and the
-- cold start. `draw` is one raw output of the generator.
use puls_rfc.Prelude.{
  ℕ, zero, suc, ◌+◌, ◌-◌, ◌%◌, Bool, false, none, some, List, [], ◌∷◌, ◌++◌, map, pos, pos_part,
  leb, length, get_elem?,
}
use puls_rfc.Double.{Double}
use puls_rfc.Cluster.{ClusterNode}
use puls_rfc.Queue.{push, pull_near}
use puls_rfc.Cache.{evict_tick}
use puls_rfc.Sim.Pending.{due, push_all}
use puls_rfc.Sim.Pools.{PoolSums, no_pools, note_pool, book_pools}
use puls_rfc.Sim.Workload.{fresh_arrival}
use puls_rfc.Sim.Csched.{Knobs}
use puls_rfc.Sim.Baseline.Defs.{SimDecoder, live_kv, BaseState, admitted, cold_ttft, serve_node}

-- The prompt and the live KV length of each decoder.
abbrev pub pool_view : List SimDecoder → List (ℕ × ℕ)
pool_view pool = map (λ q. (q.prompt, live_kv q)) pool

module _ {W : Type 0} ⦃d : Double W⦄ where
  module _ {G : Type 0} (k : Knobs W G) where
    unfoldable pub serve_all :
        ℕ
        → ℕ
        → Bool
        → List (List SimDecoder)
        → BaseState W G
        → PoolSums W
        → List (List SimDecoder) × BaseState W G × PoolSums W
    unfolding serve_node note_pool
    serve_all z now measured [] s r = ([], s, r)
    serve_all z now measured (pool ∷ pools) s r =
        let (pool', s1) = serve_node k now measured z pool s in
        let (pools', s2, r2) =
          serve_all (suc z) now measured pools s1 (note_pool measured (pool_view pool') r) in
        (pool' ∷ pools', s2, r2)

    unfoldable pub round_step :
        ℕ → Bool → List (List SimDecoder) → BaseState W G → List (List SimDecoder) × BaseState W G
    unfolding evict_tick due push_all serve_all book_pools
    round_step now measured pools s =
        let cache = evict_tick now s.books.cache in
        let (out, pend) = due now s.pend in
        let s1 = record s {
          books = record s.books { cache = cache };
          pend = pend;
          queue = push_all out s.queue;
        } in
        let (pools', s2, r) = serve_all 0 now measured pools s1 no_pools in
        (pools', record s2 { books = book_pools measured r s2.books })

    -- The rounds from `it` on; the measurements count from `warm` on.
    unfoldable pub base_loop :
        ℕ → ℕ → ℕ → List (List SimDecoder) → BaseState W G → List (List SimDecoder) × BaseState W G
    unfolding round_step
    base_loop warm zero it pools s = (pools, s)
    base_loop warm (suc rounds) it pools s =
        let (pools', s') = round_step it (leb warm it) pools s in
        base_loop warm rounds (it + 1) pools' s'

    -- The backlog of the start: `n` fresh arrivals of round 0.
    unfoldable pub seed_queue : ℕ → BaseState W G → BaseState W G
    unfolding fresh_arrival push
    seed_queue zero s = s
    seed_queue (suc n) s =
        let (r, w) = fresh_arrival k.random k.turns k.sample_b k.edge_cutoff k.draws 0 s.workload in
        seed_queue n
          (record s { workload = w; queue = elim r [ none ↦ s.queue | some q ↦ push q s.queue ] })

    module _ (measured : Bool) (draw : G → ℕ × G) where
      -- The lengths placed on a node, up to `n` of them; the ids count up from `id`.
      unfoldable pub seed_pool :
          ℕ
          → List ℕ
          → ℕ
          → List SimDecoder
          → G
          → BaseState W G
          → ℕ × List SimDecoder × G × BaseState W G
      unfolding cold_ttft
      seed_pool (suc n) (prompt ∷ lengths) id pool g s =
          let (dtot, g') = k.random.uniform_int k.turns.dtot_lo k.turns.dtot_hi g in
          let fresh : SimDecoder = record {
            id = id;
            prompt = prompt;
            max_tokens = dtot;
            dec = 0;
            wait = 0;
            turn = 0;
            cached_prefix = 0;
            met_ttft = false;
          } in
          let (met, b) = cold_ttft k 0 measured fresh s.books in
          seed_pool n lengths (id + 1) (pool ++ record fresh { met_ttft = met } ∷ []) g'
            (record s { books = b })
      seed_pool _ _ id pool g s = (id, pool, g, s)

      abbrev pub random_hole : List SimDecoder → G → ℕ × G
      random_hole [] g = (pos_part (d.trunc k.deployment.op.ctx_balance), g)
      random_hole (q ∷ qs) g =
          let (x, g') = draw g in
          (
            elim (get_elem? (q ∷ qs) (x % length (q ∷ qs))) [ none ↦ q.prompt | some r ↦ r.prompt ],
            g',
          )

      -- `while (pool.size() < decode_pool)`, with a random resident's length as the hole.
      unfoldable pub top_up :
          ℕ → List SimDecoder → G → BaseState W G → List SimDecoder × G × BaseState W G
      unfolding pull_near cold_ttft
      top_up zero pool g s = (pool, g, s)
      top_up (suc n) pool g s =
          let (hole, g') = random_hole pool g in
          let (r, queue) = pull_near (d.of_int (pos hole)) k.cap_room s.queue in
          elim r [
            | none ↦ (pool, g', record s { queue = queue })
            | some q ↦
                let (met, b) = cold_ttft k 0 measured (admitted q false) s.books in
                top_up n (pool ++ admitted q met ∷ []) g' (record s { queue = queue; books = b })
          ]

      unfoldable pub start_nodes :
          List ClusterNode → ℕ → G → BaseState W G → List (List SimDecoder) × G × BaseState W G
      unfolding seed_pool top_up
      start_nodes [] id g s = ([], g, s)
      start_nodes (nd ∷ nodes) id g s =
          let full = k.deployment.op.decode_pool in
          let (id', pool, g1, s1) = seed_pool full nd.lengths id [] g s in
          let (pool', g2, s2) = top_up (full - length pool) pool g1 s1 in
          let (pools, g3, s3) = start_nodes nodes id' g2 s2 in (pool' ∷ pools, g3, s3)
