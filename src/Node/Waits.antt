-- ===== src/Node/Waits.antt =====
-- The waits of a node's pool through the parts of `advance_round`
-- (puls-engine/core/node_scheduler.cpp).
use puls_rfc.Prelude.{
  ℕ, suc, ◌+◌, ◌*◌, ◌≤◌, ◌<◌, ◌≡◌, refl, Bool, true, false, some, List, [], ◌∷◌, ◌++◌, map, arith,
  length, replicate, length-append, length-replicate, ap, leb, Option-cases, inl, inr, get_elem?,
  length-map, Bool-cases, pos, sym, ◌∙◌,
}
use puls_rfc.Double.{Double, IsOrdered}
use puls_rfc.OperatingPoint.{OperatingPoint}
use puls_rfc.RequestSource.{RequestSource, PulledRequest}
use puls_rfc.Steering.{mark_all}
use puls_rfc.Steering.Batch.{length-mark_all, mark_all-keeps_true}
use puls_rfc.Steering.Oldest.{steer_decode_set-ServesOldest}
use puls_rfc.Steering.Run.{steer_decode_set-Run}
use puls_rfc.Steering.Waits.{old, old_marked, age_waits, ServesOldest}
use puls_rfc.Node.Defs.{
  NodeDecoder, NodeScheduler, to_decoder, admitted, advance, retire, compose_decode_batch,
  round_marks, node_cap_room, pull_into, heal,
}

abbrev pub waits : List NodeDecoder → List ℕ
waits = map (λ q. q.wait)

pub waits-advance :
    (us : List Bool) (qs : List NodeDecoder) → waits (advance us qs) ≡ age_waits us (waits qs)
unfolding advance age_waits
waits-advance [] qs = refl
waits-advance (u ∷ us) [] = refl
waits-advance (u ∷ us) (q ∷ qs) = ground (arith, waits-advance us qs)

pub length-retire :
    (qs : List NodeDecoder) → length (retire qs).0 + length (retire qs).1 ≡ length qs
unfolding retire
length-retire [] = refl
length-retire (q ∷ qs) = ground (arith, length-retire qs)

pub old-retire-le : (w : ℕ) (qs : List NodeDecoder) → old w (waits (retire qs).1) ≤ old w (waits qs)
unfolding retire old
old-retire-le w [] = omega arith
old-retire-le w (q ∷ qs) = ground (arith, old-retire-le w qs)

waits-to_decoder : (qs : List NodeDecoder) → map (λ x. x.wait) (map to_decoder qs) ≡ waits qs
waits-to_decoder [] = refl
waits-to_decoder (q ∷ qs) = ap (◌∷◌ q.wait) (waits-to_decoder qs)

-- More marks serve no fewer.
old_marked-le :
    (w : ℕ) (us vs : List Bool) (xs : List ℕ)
    → length us ≡ length vs
    → ((j : ℕ) → get_elem? us j ≡ some true → get_elem? vs j ≡ some true)
    → old_marked w us xs ≤ old_marked w vs xs
unfolding old_marked
old_marked-le w [] vs xs e h = omega arith
old_marked-le w (u ∷ us) [] xs e h = absurd (omega arith)
old_marked-le w (u ∷ us) (v ∷ vs) [] e h = omega arith
old_marked-le w (u ∷ us) (v ∷ vs) (x ∷ xs) e h =
    ground (arith, h 0, old_marked-le w us vs xs (omega arith) (λ j. h (suc j)))

module _ {W : Type 0} ⦃d : Double W⦄ (op : OperatingPoint W) where
  module _ (laws : IsOrdered W) (pool : List NodeDecoder) where
    compose_marks :
        (used : List Bool)
        → (compose_decode_batch op pool used).1
          ≡ mark_all used (compose_decode_batch op pool used).0
    unfolding compose_decode_batch
    compose_marks used = (steer_decode_set-Run op (map to_decoder pool) laws used).1

    abbrev first_marks : List Bool
    first_marks = (compose_decode_batch op pool (replicate (length pool) false)).1

    length-first_marks : length first_marks ≡ length pool
    length-first_marks =
        ap length (compose_marks (replicate (length pool) false))
        ∙ length-mark_all (replicate (length pool) false) _
        ∙ length-replicate (length pool) false

    pub length-round_marks : length (round_marks op pool) ≡ length pool
    unfolding round_marks
    length-round_marks = elim (Bool-cases (leb (2 * op.decode_count_target) (length pool))) [
      | inl two ↦ rw two (
          ap length (compose_marks first_marks)
          ∙ length-mark_all first_marks _
          ∙ length-first_marks)
      | inr one ↦ rw one length-first_marks
    ]

    first-ServesOldest :
        0 < op.decode_count_target
        → 0 < op.kv_operating_target
        → ServesOldest op.age_cap first_marks (waits pool)
    unfolding compose_decode_batch
    first-ServesOldest count target =
        rw (waits-to_decoder pool, length-map to_decoder pool) at
          (steer_decode_set-ServesOldest op (map to_decoder pool) laws count target)

    pub round_marks-ServesOldest :
        0 < op.decode_count_target
        → 0 < op.kv_operating_target
        → ServesOldest op.age_cap (round_marks op pool) (waits pool)
    unfolding round_marks
    round_marks-ServesOldest count target w cap some_old =
        let served = first-ServesOldest count target w cap some_old in
        elim (Bool-cases (leb (2 * op.decode_count_target) (length pool))) [
          | inl two ↦
              rw (two, compose_marks first_marks)
                (omega (
                  arith,
                  served,
                  old_marked-le w first_marks (mark_all first_marks _) (waits pool)
                      (sym (length-mark_all first_marks _)) (mark_all-keeps_true first_marks _),
                ))
          | inr one ↦ rw one served
        ]

  module _ {S : Type 0} (src : RequestSource W S) where
    -- `pull_near` admits at most one decoder, at the end of the pool and with no wait.
    pub pull_into-grows :
        (ideal : W) (n : NodeScheduler S)
        → let n' = pull_into op src ideal n in
          (length n'.pool ≤ length n.pool + 1)
          × (length n.pool ≤ length n'.pool)
          × ((w : ℕ) → old (suc w) (waits n'.pool) ≡ old (suc w) (waits n.pool))
    unfolding pull_into old
    pull_into-grows ideal n =
        elim (Option-cases (src.pull_near ideal (node_cap_room op) n.source).0) [
          | inl e ↦ rw (e, pull_into) (omega arith, omega arith, λ w. refl)
          | inr (r, e) ↦
              let more = length-append n.pool (admitted r ∷ []) in
              rw (e, pull_into) (omega arith, omega arith, λ w. waits_append w n.pool r)
        ]
      where
        waits_append :
            (w : ℕ) (qs : List NodeDecoder) (r : PulledRequest)
            → old (suc w) (waits (qs ++ admitted r ∷ [])) ≡ old (suc w) (waits qs)
        waits_append w [] r = ground arith
        waits_append w (q ∷ qs) r = omega (arith, waits_append w qs r)

    pub heal-grows :
        (holes : List ℕ) (n : NodeScheduler S)
        → let n' = heal op src holes n in
          (length n'.pool ≤ length n.pool + length holes)
          × (length n.pool ≤ length n'.pool)
          × ((w : ℕ) → old (suc w) (waits n'.pool) ≡ old (suc w) (waits n.pool))
    unfolding heal
    heal-grows [] n = (omega arith, omega arith, λ w. refl)
    heal-grows (hole ∷ holes) n =
        let n' = pull_into op src (d.of_int (pos hole)) n in
        let (up, down, same) = pull_into-grows (d.of_int (pos hole)) n in
        let (up', down', same') = heal-grows holes n' in
        (omega arith, omega arith, λ w. same' w ∙ same w)
