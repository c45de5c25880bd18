-- ===== src/Sim/Baseline/Population.antt =====
-- The population of puls-engine/sim/baseline.cpp over the rounds of its main loop.
use puls_rfc.Prelude.{
  ℕ, zero, suc, ◌+◌, ◌≡◌, ◌≢◌, refl, inl, inr, Bool, Option, none, some, List, [], ◌∷◌, ◌++◌, pos,
  arith, leb, length, sum_by, length-append, Bool-cases, Option-cases,
}
use puls_rfc.Double.{Double, IsOrdered}
use puls_rfc.Queue.{Request, GlobalQueue, push, pull_near}
use puls_rfc.Queue.Pull.{IsNearPull, pull_near-IsNearPull}
use puls_rfc.Sim.Pending.{due, push_all, length-add, length-due, length-push_all}
use puls_rfc.Cache.{evict_tick}
use puls_rfc.Sim.Workload.{MultiTurnWorkload, maybe_return, fresh_arrival}
use puls_rfc.Sim.Csched.{Knobs}
use puls_rfc.Sim.Pools.{PoolSums, no_pools, note_pool}
use puls_rfc.Sim.Baseline.Defs.{
  SimDecoder, BaseState, as_request, admitted, advance, heal_ttft, compose_round, finish, retire,
  heal, serve_node,
}
use puls_rfc.Sim.Baseline.Round.{pool_view, serve_all, round_step, base_loop}

length-advance : (us : List Bool) (qs : List SimDecoder) → length (advance us qs) ≡ length qs
unfolding advance
length-advance [] qs = refl
length-advance (u ∷ us) [] = refl
length-advance (u ∷ us) (q ∷ qs) = omega (arith, length-advance us qs)

module _ {W : Type 0} ⦃d : Double W⦄ {G : Type 0} (k : Knobs W G) where
  -- The requests that wait: in the queue, or for their round.
  abbrev pub waiting : BaseState W G → ℕ
  waiting s = length s.queue.q + length s.pend

  -- All requests: resident on a node, in the queue, or to return.
  abbrev pub population : List (List SimDecoder) × BaseState W G → ℕ
  population (pools, s) = sum_by (λ p. length p) pools + waiting s

  -- The sampler's draws suffice: an arrival never fails for want of a sample within the cutoff.
  abbrev pub Arrives : Type 0
  Arrives =
      (now : ℕ) (w : MultiTurnWorkload G)
      → (fresh_arrival k.random k.turns k.sample_b k.edge_cutoff k.draws now w).0 ≢ none

  module _ (arrives : Arrives) (now : ℕ) (measured : Bool) (z : ℕ) where
    finish-waiting :
        (q : SimDecoder) (s : BaseState W G) → waiting (finish k now measured z q s) ≡ waiting s + 1
    unfolding finish push
    finish-waiting q s =
        let ret = maybe_return k.random k.turns (as_request now q) now s.workload in
        elim (Option-cases ret.0) [
          | inr ((round, next), e) ↦ rw (e, finish) (omega (arith, length-add round next s.pend))
          | inl e ↦
              elim (Option-cases
                (fresh_arrival k.random k.turns k.sample_b k.edge_cutoff k.draws now ret.1).0) [
                  | inl dry ↦ absurd (arrives now ret.1 dry)
                  | inr (r, f) ↦ rw (e, f, finish) (omega (arith, length-append s.queue.q (r ∷ [])))
                ]
        ]

    retire-waiting :
        (qs : List SimDecoder) (s : BaseState W G)
        → (let (holes, keep, s') = retire k now measured z qs s in
            length keep + waiting s' ≡ length qs + waiting s)
    unfolding retire
    retire-waiting [] s = refl
    retire-waiting (q ∷ qs) s = elim (Bool-cases (leb q.max_tokens q.dec)) [
      | inl finished ↦
          rw (finished, retire)
            (omega (arith, retire-waiting qs (finish k now measured z q s), finish-waiting q s))
      | inr running ↦ rw (running, retire) (omega (arith, retire-waiting qs s))
    ]

    module _ (laws : IsOrdered W) where
      heal-waiting :
          (holes : List ℕ) (pool : List SimDecoder) (s : BaseState W G)
          → (let (pool', s') = heal k now measured holes pool s in
              length pool' + waiting s' ≡ length pool + waiting s)
      unfolding heal
      heal-waiting [] pool s = refl
      heal-waiting (hole ∷ holes) pool s =
          let ideal = d.of_int (pos hole) in
          go (pull_near ideal k.cap_room s.queue)
            (pull_near-IsNearPull laws ideal k.cap_room s.queue) (heal-waiting holes)
        where
          go :
              (r : Option Request × GlobalQueue)
              → IsNearPull laws (d.of_int (pos hole)) k.cap_room s.queue r
              → ((pool : List SimDecoder) (s : BaseState W G)
                  → (let (pool', s') = heal k now measured holes pool s in
                      length pool' + waiting s' ≡ length pool + waiting s))
              → (let after : List SimDecoder × BaseState W G = elim r.0 [
                | none ↦ (pool, record s { queue = r.1 })
                | some q ↦
                    let (met, b) = heal_ttft k now measured q s.books in
                    heal k now measured holes
                      (pool ++ admitted q met ∷ [])
                      (record s { queue = r.1; books = b })
              ] in
                  length after.0 + waiting after.1 ≡ length pool + waiting s)
          go (none, g) (same, dry) rest = rw same refl
          go (some q, g) (left, same, fits, near) rest =
              let (met, b) = heal_ttft k now measured q s.books in
              omega (
                arith,
                left.fewer,
                rest (pool ++ admitted q met ∷ []) (record s { queue = g; books = b }),
                length-append pool (admitted q met ∷ []),
              )

      serve_node-waiting :
          (pool : List SimDecoder) (s : BaseState W G)
          → (let (pool', s') = serve_node k now measured z pool s in
              length pool' + waiting s' ≡ length pool + waiting s)
      unfolding serve_node
      serve_node-waiting pool s =
          let (used, b) = compose_round k now measured pool s.books in
          let r = retire k now measured z (advance used pool) (record s { books = b }) in
          omega (
            arith,
            heal-waiting r.0 r.1 r.2,
            retire-waiting (advance used pool) (record s { books = b }),
            length-advance used pool,
          )

  module _ (arrives : Arrives) (laws : IsOrdered W) where
    serve_all-population :
        (z now : ℕ) (measured : Bool) (pools : List (List SimDecoder)) (s : BaseState W G)
        (r : PoolSums W)
        → (let (pools', s', r') = serve_all k z now measured pools s r in
            population (pools', s') ≡ population (pools, s))
    unfolding serve_all
    serve_all-population z now measured [] s r = refl
    serve_all-population z now measured (pool ∷ pools) s r =
        let (pool', s1) = serve_node k now measured z pool s in
        omega (
          arith,
          serve_node-waiting arrives now measured z laws pool s,
          serve_all-population (suc z) now measured pools s1
              (note_pool measured (pool_view pool') r),
        )

    round_step-population :
        (now : ℕ) (measured : Bool) (pools : List (List SimDecoder)) (s : BaseState W G)
        → population (round_step k now measured pools s) ≡ population (pools, s)
    unfolding round_step
    round_step-population now measured pools s =
        let r = due now s.pend in
        let s1 = record s {
          books = record s.books { cache = evict_tick now s.books.cache };
          pend = r.1;
          queue = push_all r.0 s.queue;
        } in
        omega (
          arith,
          serve_all-population 0 now measured pools s1 no_pools,
          length-push_all r.0 s.queue,
          length-due now s.pend,
        )

    -- Over any number of rounds of the baseline's main loop, with doubles in order and a sampler that
    -- always finds a length within the cutoff, the population stays the same: what all nodes, the queue
    -- and the pending returns hold together.
    pub base_loop-population :
        (warm rounds it : ℕ) (pools : List (List SimDecoder)) (s : BaseState W G)
        → population (base_loop k warm rounds it pools s) ≡ population (pools, s)
    unfolding base_loop
    base_loop-population warm zero it pools s = refl
    base_loop-population warm (suc rounds) it pools s =
        let (pools', s') = round_step k it (leb warm it) pools s in
        omega (
          arith,
          base_loop-population warm rounds (it + 1) pools' s',
          round_step-population it (leb warm it) pools s,
        )
