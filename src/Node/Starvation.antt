-- ===== src/Node/Starvation.antt =====
-- The bound on waiting that the age cap buys over whole rounds of `NodeScheduler`
-- (puls-engine/core/node_scheduler.cpp).
use puls_rfc.Prelude.{
  ℕ, zero, suc, ◌+◌, ◌<◌, ◌≡◌, refl, List, [], ◌∷◌, arith, length, some, get_elem?, length-map, All,
}
use puls_rfc.Double.{Double, IsOrdered}
use puls_rfc.OperatingPoint.{OperatingPoint}
use puls_rfc.RequestSource.{RequestSource}
use puls_rfc.Steering.Oldest.{map-get}
use puls_rfc.Steering.Waits.{old, IsPaced, age_waits-IsPaced, IsPaced-wait}
use puls_rfc.Node.Defs.{
  NodeDecoder, NodeScheduler, advance, retire, round_marks, heal, advance_round,
}
use puls_rfc.Node.Waits.{
  waits, waits-advance, length-retire, old-retire-le, length-round_marks, round_marks-ServesOldest,
  heal-grows,
}

-- Every decoder has just been admitted or served.
abbrev pub AreRested : List NodeDecoder → Type 0
AreRested = All (λ q. q.wait ≡ 0)

old-rested : (w : ℕ) (qs : List NodeDecoder) → AreRested qs → old (suc w) (waits qs) ≡ 0
unfolding old
old-rested w [] h = refl
old-rested w (q ∷ qs) h = ground (arith, old-rested w qs h.1)

-- The state after `k` rounds.
module _ {W : Type 0} ⦃d : Double W⦄ (op : OperatingPoint W) {S : Type 0}
    (src : RequestSource W S) where
  unfoldable pub rounds : ℕ → NodeScheduler S → NodeScheduler S
  unfolding advance_round
  rounds zero s = s
  rounds (suc k) s = rounds k (advance_round op src s).1

module _ {W : Type 0} ⦃d : Double W⦄ (op : OperatingPoint W) (laws : IsOrdered W) {S : Type 0}
    (src : RequestSource W S) where
  -- A pool that is paced for `n` decoders stays so through a round.
  pub advance_round-IsPaced :
      (n : ℕ) (s : NodeScheduler S)
      → 0 < op.decode_count_target
      → 0 < op.kv_operating_target
      → IsPaced op.age_cap n (waits s.pool)
      → IsPaced op.age_cap n (waits (advance_round op src s).1.pool)
  unfolding advance_round
  advance_round-IsPaced n s count target p =
      let us = round_marks op s.pool in
      let moved = advance us s.pool in
      let aged : IsPaced op.age_cap n (waits moved) = rw (waits-advance us s.pool) (
        age_waits-IsPaced op.age_cap n us (waits s.pool)
          (omega (
            arith,
            length-round_marks op laws s.pool,
            length-map (λ (q : NodeDecoder). q.wait) s.pool,
          ))
          (round_marks-ServesOldest op laws s.pool count target) p) in
      let kept = record s { pool = (retire moved).1 } in
      let (up, down, same) = heal-grows op src (retire moved).0 kept in
      record {
        short = omega (
          arith,
          up,
          aged.short,
          length-retire moved,
          length-map (λ (q : NodeDecoder). q.wait) moved,
          length-map (λ (q : NodeDecoder). q.wait) (heal op src (retire moved).0 kept).pool,
        );
        paced = λ j.
            let e : op.age_cap + suc j ≡ suc (op.age_cap + j) = omega arith in
            rw e (
              omega (
                arith,
                same (op.age_cap + j),
                old-retire-le (suc (op.age_cap + j)) moved,
                rw e at (aged.paced j),
              ));
      }

  rounds-IsPaced :
      (k n : ℕ) (s : NodeScheduler S)
      → 0 < op.decode_count_target
      → 0 < op.kv_operating_target
      → IsPaced op.age_cap n (waits s.pool)
      → IsPaced op.age_cap n (waits (rounds op src k s).pool)
  unfolding rounds
  rounds-IsPaced zero n s count target p = p
  rounds-IsPaced (suc k) n s count target p =
      rounds-IsPaced k n (advance_round op src s).1 count target
        (advance_round-IsPaced n s count target p)

  -- However many rounds a pool of `n` rested decoders runs, and whatever the source sends for those
  -- that finish, no decoder in the pool has waited `age_cap + n` rounds.
  pub rounds-wait_bounded :
      (k i : ℕ) (s : NodeScheduler S) (q : NodeDecoder)
      → 0 < op.decode_count_target
      → 0 < op.kv_operating_target
      → AreRested s.pool
      → get_elem? (rounds op src k s).pool i ≡ some q
      → q.wait < op.age_cap + length s.pool
  rounds-wait_bounded k i s q count target rested at =
      IsPaced-wait op.age_cap (length s.pool) i (waits (rounds op src k s).pool) q.wait
        (rounds-IsPaced k (length s.pool) s count target (record {
          short = omega (arith, length-map (λ (q : NodeDecoder). q.wait) s.pool);
          paced = λ j.
              let e : op.age_cap + suc j ≡ suc (op.age_cap + j) = omega arith in
              rw e (omega (arith, old-rested (op.age_cap + j) s.pool rested));
        }))
        (map-get (λ q. q.wait) (rounds op src k s).pool i q at)
