-- ===== src/Sim/Csched/Caches.antt =====
-- What puls-engine/sim/csched.cpp does to the cache: whatever the four operations of the cache keep,
-- a round over the nodes keeps.
use puls_rfc.Prelude.{
  ℕ, suc, ◌+◌, ◌-◌, ◌*◌, ◌≤◌, ◌<◌, ◌≡◌, refl, inl, inr, Bool, true, false, none, List, [], ◌∷◌,
  ◌++◌, ℤ, pos, ◌-ℤ◌, ltb, leb, length, replicate, map, sum_by, Bool-cases, Option-cases, arith,
  ◌∙◌, subst, sym, if◌then◌else◌,
}
use puls_rfc.Double.{Double}
use puls_rfc.Scan.{scan}
use puls_rfc.Steering.{steer_decode_set}
use puls_rfc.Queue.{Request}
use puls_rfc.Cache.{ClusterCache, on_complete, evict_tick, lookup, enforce_budget}
use puls_rfc.Sim.Ttft.{Books, book_ttft}
use puls_rfc.Sim.Workload.{maybe_return, fresh_arrival}
use puls_rfc.Sim.Pools.{PoolSums, note_pool}
use puls_rfc.Sim.Csched.State.{
  SimDecoder, live_kv, to_steering, Knobs, Shared, CschedNode, advance_gaps,
}
use puls_rfc.Sim.Csched.Defs.{
  as_request, complete, retire, arrival_test, arrival_mark, admit_ttft, next_request, heal,
  record_selected, compose_round, serve_node,
}
use puls_rfc.Sim.Csched.Round.{pool_view, serve_all}

-- A predicate of the cache that its operations keep, those on a node for the first `z` nodes.
pub record CacheInvariant {W : Type 0} ⦃d : Double W⦄ (z : ℕ) (C : ClusterCache W → Type 0)
    : Type 0 where
  pub completed :
      (node id len now : ℕ) (c : ClusterCache W)
      → node < z
      → C c
      → C (on_complete node id len now c)
  pub evicted : (now : ℕ) (c : ClusterCache W) → C c → C (evict_tick now c)
  pub answered : (id now : ℕ) (c : ClusterCache W) → C c → C (lookup id now c).1
  pub enforced :
      (node : ℕ) (budget : ℤ) (c : ClusterCache W) → C c → C (enforce_budget node budget c)

module _ {W : Type 0} ⦃d : Double W⦄ {G : Type 0} (k : Knobs W G) (top : ℕ)
    {C : ClusterCache W → Type 0} (law : CacheInvariant top C) where
  -- The cache of the shared state has the property.
  abbrev pub Keeps : Shared W G → Type 0
  Keeps s = C s.books.cache

  module _ (z now : ℕ) (measured : Bool) where
    record_selected-cache :
        (pool : List SimDecoder) (b2 : Bool) (selected : List ℕ) (b : Books W)
        → (record_selected k z now measured pool b2 selected b).cache ≡ b.cache
    unfolding record_selected
    record_selected-cache pool b2 selected b = elim (Bool-cases measured) [
      | inl on ↦ rw (on, record_selected) refl
      | inr off ↦ rw (off, record_selected) refl
    ]

    compose_round-cache :
        (pool : List SimDecoder) (b : Books W)
        → (compose_round k z now measured pool b).1.cache ≡ b.cache
    unfolding compose_round
    compose_round-cache pool b =
        let op = k.deployment.op in
        let decoders = map to_steering pool in
        let (p1, used) = steer_decode_set op decoders (replicate (length pool) false) in
        let one = record_selected-cache pool false p1 b in
        let (p2, used') = steer_decode_set op decoders used in
        elim (Bool-cases (leb (2 * op.decode_count_target) (length pool))) [
          | inl two ↦ rw (two, compose_round) (record_selected-cache pool true p2 _ ∙ one)
          | inr small ↦ rw (small, compose_round) one
        ]

    complete-Keeps :
        (q : SimDecoder) (s : Shared W G)
        → z < top
        → Keeps s
        → Keeps (complete k z now measured q s)
    unfolding complete
    complete-Keeps q s near v =
        let kept = law.completed z q.id (q.prompt + q.dec) now s.books.cache near v in
        let ret = maybe_return k.random k.turns (as_request now q) now s.workload in
        elim (Option-cases ret.0) [
          | inr (p, e) ↦ rw (e, complete) kept
          | inl e ↦
              elim (Option-cases
                (fresh_arrival k.random k.turns k.sample_b k.edge_cutoff k.draws now ret.1).0) [
                  | inl f ↦ rw (e, f, complete) kept
                  | inr (r, f) ↦ rw (e, f, complete) kept
                ]
        ]

    retire-Keeps :
        (qs : List SimDecoder) (s : Shared W G)
        → z < top
        → Keeps s
        → Keeps (retire k z now measured qs s).2
    unfolding retire
    retire-Keeps [] s near v = v
    retire-Keeps (q ∷ qs) s near v = elim (Bool-cases (leb q.max_tokens q.dec)) [
      | inl finished ↦
          rw (finished, retire)
            (retire-Keeps qs (complete k z now measured q s) near (complete-Keeps q s near v))
      | inr running ↦ rw (running, retire) (retire-Keeps qs s near v)
    ]

    book_ttft-cache :
        (ttft : W) (b : Books W) → (book_ttft k.deployment k.slo measured ttft b).1.cache ≡ b.cache
    unfolding book_ttft
    book_ttft-cache ttft b = elim (Bool-cases measured) [
      | inl on ↦ rw (on, book_ttft) refl
      | inr off ↦ rw (off, book_ttft) refl
    ]

    booked-Keeps :
        (ttft : W) (b : Books W)
        → C b.cache
        → C
            (book_ttft k.deployment k.slo measured ttft (
              if measured
              then record b { metrics = record b.metrics { ttft = b.metrics.ttft ++ ttft ∷ [] } }
              else b)).1.cache
    booked-Keeps ttft b v = elim (Bool-cases measured) [
      | inl on ↦ subst C (sym (book_ttft-cache ttft _)) (rw on v)
      | inr off ↦ subst C (sym (book_ttft-cache ttft _)) (rw off v)
    ]

    admit_ttft-Keeps :
        (r : Request) (s : Shared W G) → Keeps s → Keeps (admit_ttft k z now measured r s).1
    unfolding admit_ttft
    admit_ttft-Keeps r s v = elim (Bool-cases (ltb 0 r.turn)) [
      | inl later ↦
          rw (later, admit_ttft) (booked-Keeps _ _ (law.answered r.id now s.books.cache v))
      | inr first ↦ rw (first, admit_ttft) (booked-Keeps _ s.books v)
    ]

    next_request-Keeps :
        (hole : ℕ) (aff : List Request) (s : Shared W G)
        → Keeps s
        → Keeps (next_request k z now measured hole aff s).2
    unfolding next_request
    next_request-Keeps hole aff s v =
        elim (Option-cases
          (if k.affinity then scan arrival_test arrival_mark 0 none none aff else none)) [
            | inl e ↦ rw (e, next_request) v
            | inr (p, e) ↦ rw (e, next_request) v
          ]

    heal-Keeps :
        (holes : List ℕ) (n : CschedNode) (s : Shared W G)
        → Keeps s
        → Keeps (heal k z now measured holes n s).1
    unfolding heal
    heal-Keeps [] n s v = v
    heal-Keeps (hole ∷ holes) n s v =
        let p = next_request k z now measured hole n.aff s in
        let v1 = next_request-Keeps hole n.aff s v in
        elim (Option-cases p.0) [
          | inl e ↦ rw (e, heal) v1
          | inr (q, e) ↦ rw (e, heal) (heal-Keeps holes _ _ (admit_ttft-Keeps q p.2 v1))
        ]

    budgeted-Keeps :
        (on : Bool) (budget : ℤ) (c : ClusterCache W)
        → C c
        → C (if on then enforce_budget z budget c else c)
    budgeted-Keeps true budget c v = law.enforced z budget c v
    budgeted-Keeps false budget c v = v

    serve_node-Keeps :
        (n : CschedNode) (s : Shared W G)
        → z < top
        → Keeps s
        → Keeps (serve_node k z now measured n s).1
    unfolding serve_node
    serve_node-Keeps n s near v =
        let (used, b) = compose_round k z now measured n.pool s.books in
        let (moved, gaps) = advance_gaps measured used n.pool s.gap_all in
        let start : Shared W G = record s { books = b; gap_all = gaps } in
        let r = retire k z now measured moved start in
        let composed = subst C (sym (compose_round-cache n.pool s.books)) v in
        let healed =
          heal-Keeps r.0 (record n { pool = r.1 }) r.2 (retire-Keeps moved start near composed) in
        budgeted-Keeps k.dyncache
          (k.cache_cap_static
            -ℤ pos (
                sum_by live_kv (heal k z now measured r.0 (record n { pool = r.1 }) r.2).0.pool
                  * k.kv_bpt
                - k.design_pool_bytes))
          _ healed

  pub serve_all-Keeps :
      (z now : ℕ) (measured : Bool) (nodes : List CschedNode) (s : Shared W G) (r : PoolSums W)
      → z + length nodes ≤ top
      → Keeps s
      → Keeps (serve_all k z now measured nodes s r).1
  unfolding serve_all
  serve_all-Keeps z now measured [] s r fits v = v
  serve_all-Keeps z now measured (n ∷ ns) s r fits v =
      let (n', s1) = serve_node k z now measured n s in
      serve_all-Keeps (suc z) now measured ns s1 (note_pool measured (pool_view n'.pool) r)
        (omega arith) (serve_node-Keeps z now measured n s (omega arith) v)
