-- ===== src/Sim/Baseline/Hitless.antt =====
-- No return of the baseline (puls-engine/sim/baseline.cpp) is answered from HBM.
use puls_rfc.Prelude.{
  ℕ, suc, ◌*◌, ◌≤◌, ◌≡◌, ◌≢◌, refl, inl, inr, Bool, true, false, not, ◌&&◌, List, [], ◌∷◌, pos, leb,
  ltb, ◌==◌, length, All, Bool-cases, Option-cases, ◌∙◌, map, replicate,
}
use puls_rfc.Double.{Double}
use puls_rfc.OperatingPoint.{OperatingPoint}
use puls_rfc.Steering.{steer_decode_set}
use puls_rfc.Queue.{Request, pull_near}
use puls_rfc.Cache.{CacheResult, hit, miss_reload, miss_recompute, on_complete, evict_tick, lookup}
use puls_rfc.Sim.Pending.{due, push_all}
use puls_rfc.Sim.Metrics.{Metrics, is_hit, count_miss, record_batch, record_pool}
use puls_rfc.Sim.Ttft.{Books, count_return, restart_us, wait_us, book_ttft, book_return, admit_ttft}
use puls_rfc.Sim.Workload.{maybe_return, fresh_arrival}
use puls_rfc.Sim.Csched.{Knobs}
use puls_rfc.Sim.Pools.{PoolSums, no_pools, note_pool, book_pools}
use puls_rfc.Sim.Baseline.Defs.{
  SimDecoder, BaseState, to_steering, as_request, advance, heal_ttft, record_selected,
  compose_round, finish, retire, heal, serve_node,
}
use puls_rfc.Sim.Baseline.Round.{pool_view, serve_all, round_step}
use puls_rfc.Sim.Baseline.Uncached.{IsOff, on_complete-IsOff, evict_tick-IsOff, lookup-IsOff}

-- Nothing is in HBM under the threshold `top`, and `h` returns have been hits.
pub record IsHitless {W : Type 0} (top h : ℕ) (b : Books W) : Type 0 where
  pub off : IsOff top b.cache
  pub hits : b.metrics.hbm_hit ≡ h

abbrev pub AreShort : ℕ → List SimDecoder → Type 0
AreShort top qs = All (λ q. q.prompt ≤ top) qs

advance-AreShort :
    (top : ℕ) (us : List Bool) (qs : List SimDecoder)
    → AreShort top qs
    → AreShort top (advance us qs)
unfolding advance
advance-AreShort top [] qs h = h
advance-AreShort top (u ∷ us) [] h = tt
advance-AreShort top (true ∷ us) (q ∷ qs) h = (h.0, advance-AreShort top us qs h.1)
advance-AreShort top (false ∷ us) (q ∷ qs) h = (h.0, advance-AreShort top us qs h.1)

module _ {W : Type 0} ⦃d : Double W⦄ where
  count_miss-hits : (b2 cm : Bool) (m : Metrics W) → (count_miss b2 cm m).hbm_hit ≡ m.hbm_hit
  unfolding count_miss
  count_miss-hits false true m = refl
  count_miss-hits false false m = refl
  count_miss-hits true true m = refl
  count_miss-hits true false m = refl

  record_batch-hits :
      (count sum : ℕ) (op : OperatingPoint W) (b2 : Bool) (m : Metrics W)
      → (record_batch count sum op b2 m).hbm_hit ≡ m.hbm_hit
  unfolding record_batch
  record_batch-hits count sum op b2 m = elim (Bool-cases (is_hit op count sum)) [
    | inl ok ↦ rw (ok, record_batch) refl
    | inr bad ↦
        rw (bad, record_batch) (count_miss-hits b2 (not (count == op.decode_count_target)) _)
  ]

  count_return-hits :
      (r : CacheResult) (m : Metrics W) → r ≢ hit → (count_return r m).hbm_hit ≡ m.hbm_hit
  unfolding count_return
  count_return-hits hit m h = absurd (h refl)
  count_return-hits miss_reload m h = refl
  count_return-hits miss_recompute m h = refl

module _ {W : Type 0} ⦃d : Double W⦄ {G : Type 0} (k : Knobs W G) (top h : ℕ) where
  module _ (now : ℕ) (measured : Bool) where
    record_selected-IsHitless :
        (pool : List SimDecoder) (b2 : Bool) (selected : List ℕ) (b : Books W)
        → IsHitless top h b
        → IsHitless top h (record_selected k now measured pool b2 selected b)
    unfolding record_selected
    record_selected-IsHitless pool b2 selected b v = elim (Bool-cases measured) [
      | inl on ↦
          rw (on, record_selected)
            (record {
              off = v.off;
              hits = record_batch-hits (length selected) _ k.deployment.op b2 b.metrics ∙ v.hits;
            })
      | inr off ↦ rw (off, record_selected) v
    ]

    compose_round-IsHitless :
        (pool : List SimDecoder) (b : Books W)
        → IsHitless top h b
        → IsHitless top h (compose_round k now measured pool b).1
    unfolding compose_round
    compose_round-IsHitless pool b v =
        let op = k.deployment.op in
        let decoders = map to_steering pool in
        let (p1, used) = steer_decode_set op decoders (replicate (length pool) false) in
        let one = record_selected-IsHitless pool false p1 b v in
        let (p2, used') = steer_decode_set op decoders used in
        elim (Bool-cases (leb (2 * op.decode_count_target) (length pool))) [
          | inl two ↦ rw (two, compose_round) (record_selected-IsHitless pool true p2 _ one)
          | inr small ↦ rw (small, compose_round) one
        ]

    book_ttft-IsHitless :
        (ttft : W) (b : Books W)
        → IsHitless top h b
        → IsHitless top h (book_ttft k.deployment k.slo measured ttft b).1
    unfolding book_ttft
    book_ttft-IsHitless ttft b v = elim (Bool-cases measured) [
      | inl on ↦ rw (on, book_ttft) (record { off = v.off; hits = v.hits })
      | inr off ↦ rw (off, book_ttft) v
    ]

    book_return-IsHitless :
        (r : CacheResult) (ttft saved : W) (b : Books W)
        → r ≢ hit
        → IsHitless top h b
        → IsHitless top h (book_return k.deployment measured r ttft saved b)
    unfolding book_return
    book_return-IsHitless r ttft saved b miss v = elim (Bool-cases measured) [
      | inl on ↦
          rw (on, book_return)
            (record { off = v.off; hits = count_return-hits r b.metrics miss ∙ v.hits })
      | inr off ↦ rw (off, book_return) v
    ]

    heal_ttft-IsHitless :
        (r : Request) (b : Books W)
        → IsHitless top h b
        → IsHitless top h (heal_ttft k now measured r b).1
    unfolding heal_ttft admit_ttft
    heal_ttft-IsHitless r b v = elim (Bool-cases (ltb 0 r.turn)) [
      | inl later ↦
          let (off, miss) = lookup-IsOff top r.id now b.cache v.off in
          let (lk, c) = lookup r.id now b.cache in
          let booked =
            book_ttft-IsHitless (d.add (wait_us k.deployment now r) (restart_us k.deployment r lk))
              (record b { cache = c }) (record { off = off; hits = v.hits }) in
          rw (later, admit_ttft) (book_return-IsHitless lk.result _ _ _ miss booked)
      | inr first ↦ rw (first, admit_ttft) (book_ttft-IsHitless _ b v)
    ]

    finish-IsHitless :
        (z : ℕ) (q : SimDecoder) (s : BaseState W G)
        → q.prompt ≤ top
        → IsHitless top h s.books
        → IsHitless top h (finish k now measured z q s).books
    unfolding finish
    finish-IsHitless z q s small v =
        let kept : IsHitless top h
            (record s.books { cache = on_complete z q.id q.prompt now s.books.cache }) =
          record {
            off = on_complete-IsOff top z q.id q.prompt now s.books.cache small v.off;
            hits = v.hits;
          } in
        let ret = maybe_return k.random k.turns (as_request now q) now s.workload in
        elim (Option-cases ret.0) [
          | inr (p, e) ↦ rw (e, finish) kept
          | inl e ↦
              elim (Option-cases
                (fresh_arrival k.random k.turns k.sample_b k.edge_cutoff k.draws now ret.1).0) [
                  | inl f ↦ rw (e, f, finish) kept
                  | inr (r, f) ↦ rw (e, f, finish) kept
                ]
        ]

    retire-IsHitless :
        (z : ℕ) (qs : List SimDecoder) (s : BaseState W G)
        → AreShort top qs
        → IsHitless top h s.books
        → IsHitless top h (retire k now measured z qs s).2.books
    unfolding retire
    retire-IsHitless z [] s small v = v
    retire-IsHitless z (q ∷ qs) s small v = elim (Bool-cases (leb q.max_tokens q.dec)) [
      | inl finished ↦
          rw (finished, retire)
            (retire-IsHitless z qs (finish k now measured z q s) small.1
              (finish-IsHitless z q s small.0 v))
      | inr running ↦ rw (running, retire) (retire-IsHitless z qs s small.1 v)
    ]

    heal-IsHitless :
        (holes : List ℕ) (pool : List SimDecoder) (s : BaseState W G)
        → IsHitless top h s.books
        → IsHitless top h (heal k now measured holes pool s).1.books
    unfolding heal
    heal-IsHitless [] pool s v = v
    heal-IsHitless (hole ∷ holes) pool s v =
        let p = pull_near (d.of_int (pos hole)) k.cap_room s.queue in
        elim (Option-cases p.0) [
          | inl e ↦ rw (e, heal) v
          | inr (q, e) ↦ rw (e, heal) (heal-IsHitless holes _ _ (heal_ttft-IsHitless q s.books v))
        ]

    serve_node-IsHitless :
        (z : ℕ) (pool : List SimDecoder) (s : BaseState W G)
        → AreShort top pool
        → IsHitless top h s.books
        → IsHitless top h (serve_node k now measured z pool s).1.books
    unfolding serve_node
    serve_node-IsHitless z pool s small v =
        let (used, b) = compose_round k now measured pool s.books in
        let r = retire k now measured z (advance used pool) (record s { books = b }) in
        heal-IsHitless r.0 r.1 r.2 (
          retire-IsHitless z (advance used pool) (record s { books = b })
            (advance-AreShort top used pool small) (compose_round-IsHitless pool s.books v))

  book_pools-IsHitless :
      (measured : Bool) (r : PoolSums W) (b : Books W)
      → IsHitless top h b
      → IsHitless top h (book_pools measured r b)
  unfolding book_pools record_pool
  book_pools-IsHitless measured r b v = elim (Bool-cases (measured && ltb 0 r.nodes)) [
    | inl on ↦ rw (on, book_pools) (record { off = v.off; hits = v.hits })
    | inr off ↦ rw (off, book_pools) v
  ]

  serve_all-IsHitless :
      (z now : ℕ) (measured : Bool) (pools : List (List SimDecoder)) (s : BaseState W G)
      (r : PoolSums W)
      → All (AreShort top) pools
      → IsHitless top h s.books
      → IsHitless top h (serve_all k z now measured pools s r).1.books
  unfolding serve_all
  serve_all-IsHitless z now measured [] s r small v = v
  serve_all-IsHitless z now measured (pool ∷ pools) s r small v =
      let (pool', s1) = serve_node k now measured z pool s in
      serve_all-IsHitless (suc z) now measured pools s1 (note_pool measured (pool_view pool') r)
        small.1 (serve_node-IsHitless now measured z pool s small.0 v)

  -- A round of the baseline, from a cache with nothing in HBM and over decoders whose prompts do not
  -- exceed the eligibility threshold `top`, leaves nothing in HBM and counts no return as a hit.
  pub round_step-IsHitless :
      (now : ℕ) (measured : Bool) (pools : List (List SimDecoder)) (s : BaseState W G)
      → All (AreShort top) pools
      → IsHitless top h s.books
      → IsHitless top h (round_step k now measured pools s).1.books
  unfolding round_step
  round_step-IsHitless now measured pools s small v =
      let (out, pend) = due now s.pend in
      let s1 = record s {
        books = record s.books { cache = evict_tick now s.books.cache };
        pend = pend;
        queue = push_all out s.queue;
      } in
      let (pools', s2, r) = serve_all k 0 now measured pools s1 no_pools in
      let served =
        serve_all-IsHitless 0 now measured pools s1 no_pools small
          (record { off = evict_tick-IsOff top now s.books.cache v.off; hits = v.hits }) in
      book_pools-IsHitless measured r s2.books served
