-- ===== src/Sim/Csched/Round.antt =====
-- The rounds of puls-engine/sim/csched.cpp over all nodes: due returns are routed, old ones spilled,
-- each node is served, and the pools are diagnosed.
use puls_rfc.Prelude.{
  ℕ, zero, suc, ◌+◌, Bool, Option, none, some, List, [], ◌∷◌, ◌++◌, map, ltb, leb, pos, pos_part,
  length, if◌then◌else◌,
}
use puls_rfc.Double.{Double}
use puls_rfc.Queue.{Request, push}
use puls_rfc.Cache.{hit, miss_reload, miss_recompute, ClusterCache, peek, evict_tick}
use puls_rfc.Sim.Pending.{due}
use puls_rfc.Sim.Pools.{PoolSums, no_pools, note_pool, book_pools}
use puls_rfc.Sim.Csched.State.{SimDecoder, live_kv, GapHist, Knobs, Shared, CschedNode}
use puls_rfc.Sim.Csched.Defs.{serve_node, spill}

-- The first cell at which the running count exceeds the target; `mx` where none does.
unfoldable pub pctl_from : ℕ → ℕ → ℕ → ℕ → List ℕ → ℕ
pctl_from target acc g mx [] = mx
pctl_from target acc g mx (n ∷ ns) =
    let rest = pctl_from target (acc + n) (suc g) mx ns in if ltb target (acc + n) then g else rest

-- The count in the cells beyond `g0`; `g` is the cell that the list begins with.
unfoldable pub count_gt : ℕ → ℕ → List ℕ → ℕ
count_gt g0 g [] = 0
count_gt g0 g (n ∷ ns) = (if ltb g0 g then n else 0) + count_gt g0 (suc g) ns

-- `aff[node].push_back(r)`
unfoldable pub hold : ℕ → Request → List CschedNode → List CschedNode
hold node r [] = []
hold zero r (n ∷ ns) = record n { aff = n.aff ++ r ∷ [] } ∷ ns
hold (suc node) r (n ∷ ns) = n ∷ hold node r ns

-- The prompt and the live KV length of each decoder.
abbrev pub pool_view : List SimDecoder → List (ℕ × ℕ)
pool_view pool = map (λ q. (q.prompt, live_kv q)) pool

module _ {W : Type 0} ⦃d : Double W⦄ where
  unfoldable pub gap_mean : GapHist → W
  gap_mean hist =
      if ltb 0 hist.n
      then d.div (d.of_int (pos hist.sum)) (d.of_int (pos hist.n))
      else d.of_int (pos 0)

  unfoldable pub pctl : W → GapHist → ℕ
  unfolding pctl_from
  pctl p hist = elim hist.n [
    | zero ↦ 0
    | suc last ↦ pctl_from (pos_part (d.trunc (d.mul p (d.of_int (pos last))))) 0 0 hist.mx hist.h
  ]

  -- The node that has the request's prefix in HBM.
  unfoldable pub holder : ClusterCache W → Request → Option ℕ
  unfolding peek
  holder c r =
      let lk = peek r.id c in
      elim lk.result [ hit ↦ lk.node | miss_reload ↦ none | miss_recompute ↦ none ]

  module _ {G : Type 0} (k : Knobs W G) where
    unfoldable pub route_due :
        List Request → List CschedNode → Shared W G → List CschedNode × Shared W G
    unfolding holder hold push
    route_due [] nodes s = (nodes, s)
    route_due (r ∷ rs) nodes s = elim (if k.affinity then holder s.books.cache r else none) [
      | some node ↦ route_due rs (hold node r nodes) s
      | none ↦ route_due rs nodes (record s { queue = push r s.queue })
    ]

    unfoldable pub spill_all : ℕ → List CschedNode → Shared W G → List CschedNode × Shared W G
    unfolding spill
    spill_all now [] s = ([], s)
    spill_all now (n ∷ ns) s =
        let (aff, g, spills) =
          spill now k.aff_spill_cap (length n.aff) 0 n.aff s.queue s.aff_spills in
        let (ns', s') = spill_all now ns (record s { queue = g; aff_spills = spills }) in
        (record n { aff = aff } ∷ ns', s')

    unfoldable pub serve_all :
        ℕ
        → ℕ
        → Bool
        → List CschedNode
        → Shared W G
        → PoolSums W
        → List CschedNode × Shared W G × PoolSums W
    unfolding serve_node note_pool
    serve_all z now measured [] s r = ([], s, r)
    serve_all z now measured (n ∷ ns) s r =
        let (n', s1) = serve_node k z now measured n s in
        let (ns', s2, r2) =
          serve_all (suc z) now measured ns s1 (note_pool measured (pool_view n'.pool) r) in
        (n' ∷ ns', s2, r2)

    unfoldable pub round_step :
        ℕ → Bool → List CschedNode → Shared W G → List CschedNode × Shared W G
    unfolding evict_tick due route_due spill_all serve_all book_pools
    round_step now measured nodes s =
        let cache = evict_tick now s.books.cache in
        let (out, pend) = due now s.pend in
        let (routed, s1) =
          route_due out nodes
            (record s { books = record s.books { cache = cache }; pend = pend }) in
        let spilled : List CschedNode × Shared W G =
          if k.affinity then spill_all now routed s1 else (routed, s1) in
        let (nodes', s2, r) = serve_all 0 now measured spilled.0 spilled.1 no_pools in
        (nodes', record s2 { books = book_pools measured r s2.books })

    -- The rounds from `it` on; the measurements count from `warm` on.
    unfoldable pub csched_loop :
        ℕ → ℕ → ℕ → List CschedNode → Shared W G → List CschedNode × Shared W G
    unfolding round_step
    csched_loop warm zero it nodes s = (nodes, s)
    csched_loop warm (suc rounds) it nodes s =
        let (nodes', s') = round_step it (leb warm it) nodes s in
        csched_loop warm rounds (it + 1) nodes' s'

    -- `M.forced = queue.forced_count()`
    unfoldable pub close : Shared W G → Shared W G
    close s = record s {
      books = record s.books { metrics = record s.books.metrics { forced = s.queue.forced } };
    }
