-- ===== src/Sim/Baseline/Dry.antt =====
-- The nodes of puls-engine/sim/baseline.cpp when the queue has no request that fits.
use puls_rfc.Prelude.{
  ℕ, zero, suc, ◌≡◌, refl, inl, inr, Bool, true, none, some, List, [], ◌∷◌, ℤ, pos, ltb_ℤ,
  get_elem?, Option-cases, arith,
}
use puls_rfc.Double.{Double, IsOrdered}
use puls_rfc.Scan.{scan-some}
use puls_rfc.Steering.{far}
use puls_rfc.Queue.{Request, GlobalQueue, find_near, pull_near}
use puls_rfc.Queue.Pull.{fit-IsSelection}
use puls_rfc.Sim.Csched.{Knobs}
use puls_rfc.Sim.Baseline.Defs.{SimDecoder, BaseState, heal}
use puls_rfc.Sim.Baseline.Round.{random_hole, top_up}

-- Every request of the queue is too large for the room.
abbrev pub IsTooLarge : ℤ → GlobalQueue → Type 0
IsTooLarge room g =
    (j : ℕ) (y : Request) → get_elem? g.q j ≡ some y → ltb_ℤ room (pos y.prompt) ≡ true

module _ {W : Type 0} ⦃d : Double W⦄ (laws : IsOrdered W) where
  pull_near-dry :
      (ideal : W) (room : ℤ) (g : GlobalQueue)
      → IsTooLarge room g
      → pull_near ideal room g ≡ (none, g)
  unfolding pull_near find_near
  pull_near-dry ideal room g large = elim (Option-cases (find_near ideal room g)) [
    | inl e ↦ rw (e, pull_near) refl
    | inr (p, e) ↦
        let (at, test, best) = scan-some _ _ (fit-IsSelection laws ideal room) far g.q p e in
        let too_large = large p.0 p.1 at in absurd (ground (arith, test, too_large))
  ]

  module _ {G : Type 0} (k : Knobs W G) where
    -- A queue of which no request fits the room ends the healing of a node and the filling of the cold
    -- start at once: the pool stays as it is, nothing is booked, and the queue loses nothing.
    pub heal-dry :
        (now : ℕ) (measured : Bool) (draw : G → ℕ × G) (holes : List ℕ) (n : ℕ)
        (pool : List SimDecoder) (g : G) (s : BaseState W G)
        → IsTooLarge k.cap_room s.queue
        → (heal k now measured holes pool s ≡ (pool, s))
          × ((top_up k measured draw n pool g s).0 ≡ pool)
          × ((top_up k measured draw n pool g s).2 ≡ s)
    unfolding heal top_up
    heal-dry now measured draw holes n pool g s large = (healed holes, topped n, topped' n)
      where
        healed : (holes : List ℕ) → heal k now measured holes pool s ≡ (pool, s)
        healed [] = refl
        healed (hole ∷ holes) =
            let dry = pull_near-dry (d.of_int (pos hole)) k.cap_room s.queue large in
            rw (dry, heal, dry) refl

        topped : (n : ℕ) → (top_up k measured draw n pool g s).0 ≡ pool
        topped zero = refl
        topped (suc n) =
            let hole = (random_hole k measured draw pool g).0 in
            let dry = pull_near-dry (d.of_int (pos hole)) k.cap_room s.queue large in
            rw (dry, top_up) refl

        topped' : (n : ℕ) → (top_up k measured draw n pool g s).2 ≡ s
        topped' zero = refl
        topped' (suc n) =
            let hole = (random_hole k measured draw pool g).0 in
            let dry = pull_near-dry (d.of_int (pos hole)) k.cap_room s.queue large in
            rw (dry, top_up, dry) refl
