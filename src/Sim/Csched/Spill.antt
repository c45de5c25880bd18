-- ===== src/Sim/Csched/Spill.antt =====
-- The spill of the affinity lists in puls-engine/sim/csched.cpp.
use puls_rfc.Prelude.{
  ℕ, zero, suc, ◌+◌, ◌≤◌, ◌<◌, ◌≡◌, refl, inl, inr, false, none, some, List, [], ◌∷◌, arith, ltb,
  ltb→lt, subst, sym, ◌∙◌, some-injective, length, get_elem?, length-append, Bool-cases,
  Option-cases,
}
use puls_rfc.Queue.{Request, GlobalQueue, push, swap_remove}
use puls_rfc.Queue.Take.{length-swap_remove, get-swap_remove}
use puls_rfc.Sim.Csched.Defs.{spill}

get-none : (xs : List Request) (j : ℕ) → get_elem? xs j ≡ none → length xs ≤ j
get-none [] j h = omega arith
get-none (x ∷ xs) zero h = absurd (cc)
get-none (x ∷ xs) (suc j) h = omega (arith, get-none xs j h)

module _ (now cap : ℕ) where
  -- The requests before the index have not waited longer than the cap.
  abbrev pub AreYoung : List Request → ℕ → Type 0
  AreYoung aff i = (j : ℕ) (y : Request) → j < i → get_elem? aff j ≡ some y → now ≤ y.arrival + cap

  abbrev Spilled : List Request → GlobalQueue → ℕ → List Request × GlobalQueue × ℕ → Type 0
  Spilled aff g spills (aff', g', spills') =
      (length aff' + length g'.q ≡ length aff + length g.q)
      × (spills' + length aff' ≡ spills + length aff)
      × AreYoung aff' (length aff')

  spill-Spilled :
      (fuel i : ℕ) (aff : List Request) (g : GlobalQueue) (spills : ℕ)
      → length aff ≤ fuel + i
      → AreYoung aff i
      → Spilled aff g spills (spill now cap fuel i aff g spills)
  unfolding spill push
  spill-Spilled zero i aff g spills enough young =
      (refl, refl, λ j y below at. young j y (omega arith) at)
  spill-Spilled (suc fuel) i aff g spills enough young = elim (Option-cases (get_elem? aff i)) [
    | inl e ↦
        rw (e, spill) (refl, refl, λ j y below at. young j y (omega (arith, get-none aff i e)) at)
    | inr (r, e) ↦ elim (Bool-cases (ltb (r.arrival + cap) now)) [
      | inl old ↦
          let shorter = length-swap_remove aff i r e in
          let (kept, counted, rest) =
            spill-Spilled fuel i (swap_remove aff i) (push r g) (spills + 1)
              (omega (arith, shorter))
              (λ j y below at. young j y below (rw (get-swap_remove aff i j r e below) at at)) in
          rw (e, old, spill)
            (
              omega (arith, kept, shorter, length-append g.q (r ∷ [])),
              omega (arith, counted, shorter),
              rest,
            )
      | inr fresh ↦
          rw (e, fresh, spill)
            (spill-Spilled fuel (suc i) aff g spills (omega arith)
              (λ j y below at. further j y fresh e at below))
    ]
  ]
    where
      further :
          {r : Request} (j : ℕ) (y : Request)
          → ltb (r.arrival + cap) now ≡ false
          → get_elem? aff i ≡ some r
          → get_elem? aff j ≡ some y
          → j < suc i
          → now ≤ y.arrival + cap
      further {r} j y fresh e at below = elim (Bool-cases (ltb j i)) [
        | inl before ↦ young j y (ltb→lt j i before) at
        | inr here ↦
            let same : j ≡ i = ground arith in
            let found : get_elem? aff i ≡ some y = subst (λ n. get_elem? aff n ≡ some y) same at in
            subst (λ q. now ≤ q.arrival + cap) (some-injective r y (sym e ∙ found)) (ground arith)
      ]

  pub spill_lem :
      (aff : List Request) (g : GlobalQueue) (spills : ℕ)
      → (let (aff', g', spills') = spill now cap (length aff) 0 aff g spills in
          (length aff' + length g'.q ≡ length aff + length g.q)
          × (spills' + length aff' ≡ spills + length aff)
          × AreYoung aff' (length aff'))
  spill_lem aff g spills =
      spill-Spilled (length aff) 0 aff g spills (omega arith) (λ j y below at. absurd (omega arith))
