-- ===== src/Sim/Lifecycle/Balance.antt =====
-- What the decode part of a round of puls-engine/sim/lifecycle.cpp keeps: its counters agree with the
-- pool and the finished prefills, and the pool's size stays within `decode_pool`.
use puls_rfc.Prelude.{
  ℕ, zero, suc, ◌+◌, ◌≤◌, ◌≡◌, refl, ◌⊎◌, inl, inr, Bool, Option, none, some, List, [], ◌∷◌, ◌++◌,
  pos, ◌*ℤ◌, arith, ltb, leb, length, All, length-append, Bool-cases,
}
use puls_rfc.Double.{Double}
use puls_rfc.OperatingPoint.{OperatingPoint}
use puls_rfc.RequestSource.{RequestSource, PulledRequest}
use puls_rfc.Queue.{back, pop_back}
use puls_rfc.Queue.Take.{length-pop_back}
use puls_rfc.Sim.Workload.{LengthClass, short, mid, long, cls}
use puls_rfc.Sim.Lifecycle.Prefill.{SimPrefill}
use puls_rfc.Sim.Lifecycle.Decode.{
  SimDecoder, Classes, count_cls, Tally, finish, advance, retire, Filling, new_decoder, transfer,
  admit_hole, heal, absorb, decode_round,
}
use puls_rfc.Sim.Lifecycle.Disjoint.{IsFinished}

abbrev pub total : Classes → ℕ
total (a, b, c) = a + b + c

pub total-count_cls : (c : LengthClass) (x : Classes) → total (count_cls c x) ≡ total x + 1
total-count_cls short x = omega arith
total-count_cls mid x = omega arith
total-count_cls long x = omega arith

All-pop_back : (xs : List SimPrefill) → All IsFinished xs → All IsFinished (pop_back xs)
All-pop_back [] h = tt
All-pop_back (x ∷ []) h = tt
All-pop_back (x ∷ y ∷ ys) h = (h.0, All-pop_back (y ∷ ys) h.1)

length-advance : (us : List Bool) (qs : List SimDecoder) → length (advance us qs) ≡ length qs
unfolding advance
length-advance [] qs = refl
length-advance (u ∷ us) [] = refl
length-advance (u ∷ us) (q ∷ qs) = omega (arith, length-advance us qs)

-- From `f` to `f'` each finished prefill is in the list or counted as moved, the admissions make up
-- for the decoders and the completions, each completion has its class, and only finished prefills
-- are listed.
pub record IsBalanced {S : Type 0} (f f' : Filling S) : Type 0 where
  pub moved : f'.tally.transitions + length f'.ready ≡ f.tally.transitions + length f.ready
  pub admitted :
      total f'.tally.admit_cls + length f.pool + f.tally.completions
      ≡ total f.tally.admit_cls + length f'.pool + f'.tally.completions
  pub completed :
      total f'.tally.comp_cls + f.tally.completions ≡ total f.tally.comp_cls + f'.tally.completions
  pub finished : All IsFinished f.ready → All IsFinished f'.ready

module _ {S : Type 0} where
  abbrev unchanged : (f : Filling S) → IsBalanced f f
  unchanged f = record { moved = refl; admitted = refl; completed = refl; finished = λ h. h }

  and_then : (f g h : Filling S) → IsBalanced f g → IsBalanced g h → IsBalanced f h
  and_then f g h a b = record {
    moved = omega (arith, a.moved, b.moved);
    admitted = omega (arith, a.admitted, b.admitted);
    completed = omega (arith, a.completed, b.completed);
    finished = λ x. b.finished (a.finished x);
  }

  abbrev filling : List SimDecoder → List SimPrefill → S → Tally → Filling S
  filling pool ready s t = record { pool = pool; ready = ready; source = s; tally = t }

  transfer-IsBalanced :
      (q : SimPrefill) (qs : List SimPrefill) (pool : List SimDecoder) (s : S) (t : Tally)
      → (let f' = transfer q qs (filling pool (q ∷ qs) s t) in
          IsBalanced (filling pool (q ∷ qs) s t) f'
          × (length f'.pool ≡ length pool + 1)
          × (length f'.ready + 1 ≡ length (q ∷ qs)))
  unfolding transfer
  transfer-IsBalanced q qs pool s t =
      let r = back q qs in
      let more = length-append pool (new_decoder r.prompt r.dtot ∷ []) in
      let less = length-pop_back qs q in
      (
        record {
          moved = omega (arith, less);
          admitted = omega (arith, more, total-count_cls (cls r.prompt) t.admit_cls);
          completed = refl;
          finished = All-pop_back (q ∷ qs);
        },
        omega (arith, more),
        omega (arith, less),
      )

  retire-IsBalanced :
      (qs : List SimDecoder) (ready : List SimPrefill) (s : S) (t : Tally)
      → (let (holes, keep, t') = retire qs t in
          IsBalanced (filling qs ready s t) (filling keep ready s t')
          × (length holes + length keep ≡ length qs))
  unfolding retire
  retire-IsBalanced [] ready s t = (unchanged (filling [] ready s t), refl)
  retire-IsBalanced (q ∷ qs) ready s t = elim (Bool-cases (leb q.dtot q.dec)) [
    | inl done ↦
        let (b, n) = retire-IsBalanced qs ready s (finish q t) in
        rw (done, retire)
          (
            record {
              moved = b.moved;
              admitted = omega (arith, b.admitted);
              completed = omega (arith, b.completed, total-count_cls (cls q.prompt) t.comp_cls);
              finished = λ h. h;
            },
            omega (arith, n),
          )
    | inr more ↦
        let (b, n) = retire-IsBalanced qs ready s t in
        rw (more, retire)
          (
            record {
              moved = b.moved;
              admitted = omega (arith, b.admitted);
              completed = b.completed;
              finished = λ h. h;
            },
            omega (arith, n),
          )
  ]

  module _ {W : Type 0} ⦃d : Double W⦄ (op : OperatingPoint W) (src : RequestSource W S) where
    abbrev pub Admits : List SimDecoder → Option ℕ × List SimDecoder × S → Type 0
    Admits pool (none, pool', s') = length pool' ≡ length pool
    Admits pool (some p, pool', s') = length pool' ≡ length pool + 1

    pub admit_hole-Admits :
        (hole : ℕ) (pool : List SimDecoder) (s : S) → Admits pool (admit_hole op src hole pool s)
    unfolding admit_hole
    admit_hole-Admits hole pool s = from (
        src.pull_near (d.of_int (pos hole)) (pos op.decode_pool *ℤ d.trunc op.ctx_balance *ℤ pos 4)
          s)
      where
        from :
            (r : Option PulledRequest × S)
            → Admits pool (elim r.0 [
              | none ↦ (none, pool, r.1)
              | some q ↦ (some q.prompt, pool ++ new_decoder q.prompt q.dtot ∷ [], r.1)
            ])
        from (none, s') = refl
        from (some q, s') = length-append pool (new_decoder q.prompt q.dtot ∷ [])

    heal-IsBalanced :
        (holes : List ℕ) (pool : List SimDecoder) (ready : List SimPrefill) (s : S) (t : Tally)
        → (let f' = heal op src holes (filling pool ready s t) in
            IsBalanced (filling pool ready s t) f' × (length f'.pool ≤ length pool + length holes))
    unfolding heal
    heal-IsBalanced [] pool ready s t = (unchanged (filling pool ready s t), omega arith)
    heal-IsBalanced (hole ∷ holes) pool (q ∷ qs) s t =
        let f1 = transfer q qs (filling pool (q ∷ qs) s t) in
        let (b, one, less) = transfer-IsBalanced q qs pool s t in
        let (b', n) = heal-IsBalanced holes f1.pool f1.ready f1.source f1.tally in
        (and_then (filling pool (q ∷ qs) s t) f1 _ b b', omega (arith, one, n))
    heal-IsBalanced (hole ∷ holes) pool [] s t =
        go (admit_hole op src hole pool s) (admit_hole-Admits hole pool s) (heal-IsBalanced holes)
      where
        go :
            (r : Option ℕ × List SimDecoder × S)
            → Admits pool r
            → ((pool : List SimDecoder) (ready : List SimPrefill) (s : S) (t : Tally)
                → (let f' = heal op src holes (filling pool ready s t) in
                    IsBalanced (filling pool ready s t) f'
                    × (length f'.pool ≤ length pool + length holes)))
            → (let f' : Filling S = elim r.0 [
              | none ↦ filling r.1 [] r.2 t
              | some prompt ↦
                  heal op src holes (
                    filling r.1 [] r.2
                      (record t { admit_cls = count_cls (cls prompt) t.admit_cls }))
            ] in
                IsBalanced (filling pool [] s t) f'
                × (length f'.pool ≤ length pool + suc (length holes)))
        go (none, pool', s') same rest = (
          record {
            moved = refl;
            admitted = omega (arith, same);
            completed = refl;
            finished = λ h. h;
          },
          omega (arith, same),
        )
        go (some prompt, pool', s') more rest =
            let t' = record t { admit_cls = count_cls (cls prompt) t.admit_cls } in
            let (b, n) = rest pool' [] s' t' in
            (
              record {
                moved = b.moved;
                admitted = omega (arith, b.admitted, total-count_cls (cls prompt) t.admit_cls);
                completed = b.completed;
                finished = b.finished;
              },
              omega (arith, n),
            )

    -- Within `decode_pool`, and no finished prefill waits while there is a slot.
    abbrev pub IsFilled : Filling S → Type 0
    IsFilled f =
        (length f.pool ≤ op.decode_pool) × ((f.ready ≡ []) ⊎ (length f.pool ≡ op.decode_pool))

    absorb-IsBalanced :
        (fuel : ℕ) (pool : List SimDecoder) (ready : List SimPrefill) (s : S) (t : Tally)
        → length ready ≤ fuel
        → length pool ≤ op.decode_pool
        → (let f' = absorb op src fuel (filling pool ready s t) in
            IsBalanced (filling pool ready s t) f' × IsFilled f')
    unfolding absorb
    absorb-IsBalanced zero pool [] s t enough fits =
        (unchanged (filling pool [] s t), (fits, inl refl))
    absorb-IsBalanced zero pool (q ∷ qs) s t enough fits = absurd (omega arith)
    absorb-IsBalanced (suc fuel) pool [] s t enough fits =
        (unchanged (filling pool [] s t), (fits, inl refl))
    absorb-IsBalanced (suc fuel) pool (q ∷ qs) s t enough fits =
        elim (Bool-cases (ltb (length pool) op.decode_pool)) [
          | inl room ↦
              let f1 = transfer q qs (filling pool (q ∷ qs) s t) in
              let (b, one, less) = transfer-IsBalanced q qs pool s t in
              let (b', full) =
                absorb-IsBalanced fuel f1.pool f1.ready f1.source f1.tally (omega arith)
                  (ground arith) in
              rw (room, absorb) (and_then (filling pool (q ∷ qs) s t) f1 _ b b', full)
          | inr full ↦
              rw (full, absorb) (unchanged (filling pool (q ∷ qs) s t), (fits, inr (ground arith)))
        ]

    -- From a pool of at most `decode_pool`, the decode part of a round, by whatever marks, keeps the
    -- counters in balance with the pool and the finished prefills, and ends with the pool within
    -- `decode_pool` and, unless it is full, no finished prefill waiting.
    pub decode_round-IsBalanced :
        (used : List Bool) (f : Filling S)
        → length f.pool ≤ op.decode_pool
        → (let f' = decode_round op src used f in IsBalanced f f' × IsFilled f')
    unfolding decode_round
    decode_round-IsBalanced used f fits =
        let moved = advance used f.pool in
        let r = retire moved f.tally in
        let (b1, n1) = retire-IsBalanced moved f.ready f.source f.tally in
        let (b2, n2) = heal-IsBalanced r.0 r.1 f.ready f.source r.2 in
        let h = heal op src r.0 (filling r.1 f.ready f.source r.2) in
        let same = length-advance used f.pool in
        let (b3, full) =
          absorb-IsBalanced (length h.ready) h.pool h.ready h.source h.tally (omega arith)
            (omega arith) in
        let b23 = and_then (filling r.1 f.ready f.source r.2) h _ b2 b3 in
        let b = and_then (filling moved f.ready f.source f.tally) _ _ b1 b23 in
        (
          record {
            moved = b.moved;
            admitted = omega (arith, b.admitted);
            completed = b.completed;
            finished = b.finished;
          },
          full,
        )
