-- ===== src/Sim/Csched/Population.antt =====
-- The population of puls-engine/sim/csched.cpp over a node's part of a round.
use puls_rfc.Prelude.{
  ap, ℕ, ◌+◌, ◌≡◌, ◌≢◌, refl, inl, inr, Bool, true, false, Option, none, some, List, [], ◌∷◌, pos,
  arith, ltb, leb, length, get_elem?, length-append, Bool-cases, Option-cases, if◌then◌else◌,
}
use puls_rfc.Double.{Double, IsOrdered}
use puls_rfc.Scan.{IsSelection, scan, scan-some}
use puls_rfc.Queue.{Request, GlobalQueue, push, pull_slot}
use puls_rfc.Queue.Take.{length-swap_remove}
use puls_rfc.Sim.Pending.{length-add}
use puls_rfc.Sim.Refill.{slot-Taken, Taken}
use puls_rfc.Sim.Workload.{MultiTurnWorkload, maybe_return, fresh_arrival}
use puls_rfc.Sim.Csched.State.{SimDecoder, GapHist, Knobs, Shared, CschedNode, advance_gaps}
use puls_rfc.Sim.Csched.Defs.{
  as_request, complete, retire, arrival_test, arrival_mark, admit_ttft, next_request, admit_to,
  heal, compose_round, serve_node,
}

arrival-IsSelection : IsSelection arrival_test arrival_mark
arrival-IsSelection = record { irrefl = λ x. ground arith; trans = λ s x y h k. ground arith }

length-advance_gaps :
    (measured : Bool) (us : List Bool) (qs : List SimDecoder) (hist : GapHist)
    → length (advance_gaps measured us qs hist).0 ≡ length qs
unfolding advance_gaps
length-advance_gaps measured [] qs hist = refl
length-advance_gaps measured (u ∷ us) [] hist = refl
length-advance_gaps measured (u ∷ us) (q ∷ qs) hist =
    omega (arith, length-advance_gaps measured us qs _)

length-admit_to :
    (r : Request) (met : Bool) (pool : List SimDecoder)
    → length (admit_to r met pool) ≡ length pool + 1
unfolding admit_to
length-admit_to r met pool = omega (arith, length-append pool (_ ∷ []))

module _ {W : Type 0} ⦃d : Double W⦄ {G : Type 0} (k : Knobs W G) (z now : ℕ)
    (measured : Bool) where
  -- The requests that wait: in the queue, or for their round.
  abbrev pub waiting : Shared W G → ℕ
  waiting s = length s.queue.q + length s.pend

  -- All requests that a node's part of the round can reach.
  abbrev pub population : CschedNode × Shared W G → ℕ
  population (n, s) = length n.pool + length n.aff + waiting s

  -- The sampler's draws suffice: an arrival never fails for want of a sample within the cutoff.
  abbrev pub Arrives : Type 0
  Arrives =
      (w : MultiTurnWorkload G)
      → (fresh_arrival k.random k.turns k.sample_b k.edge_cutoff k.draws now w).0 ≢ none

  complete-waiting :
      (q : SimDecoder) (s : Shared W G)
      → Arrives
      → waiting (complete k z now measured q s) ≡ waiting s + 1
  unfolding complete push
  complete-waiting q s arrives =
      let ret = maybe_return k.random k.turns (as_request now q) now s.workload in
      elim (Option-cases ret.0) [
        | inr ((round, next), e) ↦ rw (e, complete) (omega (arith, length-add round next s.pend))
        | inl e ↦
            elim (Option-cases
              (fresh_arrival k.random k.turns k.sample_b k.edge_cutoff k.draws now ret.1).0) [
                | inl dry ↦ absurd (arrives ret.1 dry)
                | inr (r, f) ↦ rw (e, f, complete) (omega (arith, length-append s.queue.q (r ∷ [])))
              ]
      ]

  retire-waiting :
      (qs : List SimDecoder) (s : Shared W G)
      → Arrives
      → (let (holes, keep, s') = retire k z now measured qs s in
          (length holes + length keep ≡ length qs)
          × (length keep + waiting s' ≡ length qs + waiting s))
  unfolding retire
  retire-waiting [] s arrives = (refl, refl)
  retire-waiting (q ∷ qs) s arrives = elim (Bool-cases (leb q.max_tokens q.dec)) [
    | inl finished ↦
        let (whole, kept) = retire-waiting qs (complete k z now measured q s) arrives in
        rw (finished, retire)
          (omega (arith, whole), omega (arith, kept, complete-waiting q s arrives))
    | inr running ↦
        let (whole, kept) = retire-waiting qs s arrives in
        rw (running, retire) (omega (arith, whole), omega (arith, kept))
  ]

  admit_ttft-waiting :
      (r : Request) (s : Shared W G) → waiting (admit_ttft k z now measured r s).1 ≡ waiting s
  unfolding admit_ttft
  admit_ttft-waiting r s = elim (Bool-cases (ltb 0 r.turn)) [
    | inl later ↦ rw (later, admit_ttft) refl
    | inr first ↦ rw (first, admit_ttft) refl
  ]

  module _ (laws : IsOrdered W) where
    abbrev Served : List Request → Shared W G → Option Request × List Request × Shared W G → Type 0
    Served aff s (none, aff', s') = length aff' + waiting s' ≡ length aff + waiting s
    Served aff s (some r, aff', s') = length aff' + waiting s' + 1 ≡ length aff + waiting s

    next_request-Served :
        (hole : ℕ) (aff : List Request) (s : Shared W G)
        → Served aff s (next_request k z now measured hole aff s)
    unfolding next_request
    next_request-Served hole aff s =
        elim (Option-cases
          (if k.affinity then scan arrival_test arrival_mark 0 none none aff else none)) [
            | inl e ↦
                rw (e, next_request)
                  (from_queue (pull_slot (d.of_int (pos hole)) k.cap_room now s.queue)
                    (slot-Taken laws k.cap_room now (d.of_int (pos hole)) s.queue))
            | inr (p, e) ↦
                let at = affine k.affinity p e in
                rw (e, next_request) (omega (arith, length-swap_remove aff p.0 p.1 at))
          ]
      where
        from_queue :
            (r : Option Request × GlobalQueue)
            → Taken laws k.cap_room now (d.of_int (pos hole)) s.queue r
            → Served aff s (r.0, aff, record s { queue = r.1 })
        from_queue (none, g) (same, dry) = omega (arith, ap length same)
        from_queue (some r, g) (fewer, perm) = omega (arith, fewer)

        affine :
            (on : Bool) (p : ℕ × Request)
            → (if on then scan arrival_test arrival_mark 0 none none aff else none) ≡ some p
            → get_elem? aff p.0 ≡ some p.1
        affine true p e = (scan-some _ _ arrival-IsSelection none aff p e).0
        affine false p e = absurd (cc)

    heal-population :
        (holes : List ℕ) (n : CschedNode) (s : Shared W G)
        → population (heal k z now measured holes n s) ≡ population (n, s)
    unfolding heal
    heal-population [] n s = refl
    heal-population (hole ∷ holes) n s =
        go (next_request k z now measured hole n.aff s) (next_request-Served hole n.aff s)
          (heal-population holes)
      where
        go :
            (r : Option Request × List Request × Shared W G)
            → Served n.aff s r
            → ((n : CschedNode) (s : Shared W G)
                → population (heal k z now measured holes n s) ≡ population (n, s))
            → population (elim r.0 [
              | none ↦ (record n { aff = r.1 }, r.2)
              | some q ↦
                  let (met, s2) = admit_ttft k z now measured q r.2 in
                  heal k z now measured holes
                    (record { pool = admit_to q met n.pool; aff = r.1 })
                    s2
            ])
              ≡ population (n, s)
        go (none, aff, s1) same rest = omega (arith, same)
        go (some q, aff, s1) one rest =
            let (met, s2) = admit_ttft k z now measured q s1 in
            omega (
              arith,
              one,
              rest (record { pool = admit_to q met n.pool; aff = aff }) s2,
              admit_ttft-waiting q s1,
              length-admit_to q met n.pool,
            )

    -- A node's part of a round, with doubles in order and a sampler that always finds a length within
    -- the cutoff, keeps the population: what the pool, the affinity list, the queue and the pending
    -- returns hold together.
    pub serve_node-population :
        (n : CschedNode) (s : Shared W G)
        → Arrives
        → population (serve_node k z now measured n s) ≡ population (n, s)
    unfolding serve_node
    serve_node-population n s arrives =
        let (used, b) = compose_round k z now measured n.pool s.books in
        let moved = advance_gaps measured used n.pool s.gap_all in
        let start : Shared W G = record s { books = b; gap_all = moved.1 } in
        let r = retire k z now measured moved.0 start in
        let (whole, kept) = retire-waiting moved.0 start arrives in
        omega (
          arith,
          kept,
          heal-population r.0 (record n { pool = r.1 }) r.2,
          length-advance_gaps measured used n.pool s.gap_all,
        )
