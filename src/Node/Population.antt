-- ===== src/Node/Population.antt =====
-- How many decoders a round of `NodeScheduler` finishes, keeps and admits
-- (puls-engine/core/node_scheduler.cpp).
use puls_rfc.Prelude.{
  ◌+◌, ◌≤◌, ◌<◌, ◌≡◌, ◌≢◌, refl, none, List, [], ◌∷◌, arith, length, ℤ, Bool, some,
}
use puls_rfc.Double.{Double}
use puls_rfc.OperatingPoint.{OperatingPoint}
use puls_rfc.RequestSource.{RequestSource, PulledRequest}
use puls_rfc.Node.Defs.{NodeDecoder, NodeScheduler, advance, retire, round_marks, advance_round}
use puls_rfc.Node.Waits.{length-retire, heal-grows}

-- What a decoder still has to generate.
abbrev pub IsRunning : NodeDecoder → Type 0
IsRunning q = q.dec < q.dtot

pub length-advance : (us : List Bool) (qs : List NodeDecoder) → length (advance us qs) ≡ length qs
unfolding advance
length-advance [] qs = refl
length-advance (u ∷ us) [] = refl
length-advance (u ∷ us) (q ∷ qs) = omega (arith, length-advance us qs)

module _ {W : Type 0} ⦃d : Double W⦄ (op : OperatingPoint W) {S : Type 0}
    (src : RequestSource W S) where
  -- A source that never runs dry, and whose requests ask for at least one token.
  pub record IsEndless : Type 0 where
    pub some_request : (ideal : W) (room : ℤ) (s : S) → (src.pull_near ideal room s).0 ≢ none
    pub asks :
        (ideal : W) (room : ℤ) (s : S) (r : PulledRequest)
        → (src.pull_near ideal room s).0 ≡ some r
        → 0 < r.dtot

  -- A round never grows the pool, and shrinks it by no more than the decoders it reports finished.
  pub advance_round-population :
      (n : NodeScheduler S)
      → let (done, n') = advance_round op src n in
        (length n'.pool ≤ length n.pool) × (length n.pool ≤ length n'.pool + done)
  unfolding advance_round
  advance_round-population n =
      let moved = advance (round_marks op n.pool) n.pool in
      let (up, down, same) =
        heal-grows op src (retire moved).0 (record n { pool = (retire moved).1 }) in
      omega (arith, up, down, length-retire moved, length-advance (round_marks op n.pool) n.pool)
