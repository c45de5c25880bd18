-- ===== src/Queue/Pull.antt =====
-- Which request `pull_near` and `pull_slot` take (puls-engine/scheduler/queue.cpp).
use mathlib.Core.List.{Perm}
use puls_rfc.Prelude.{
  ℕ, suc, ◌+◌, ◌-◌, ◌≤◌, ◌<◌, ◌≡◌, refl, false, Option, none, some, List, [], ◌∷◌, ℤ, pos, ltb,
  ltb_ℤ, get_elem?, length, arith, All, All-get, Option-cases, subst, sym, ◌∙◌, if◌then◌else◌, ◌⊎◌,
  inl, inr,
}
use puls_rfc.Double.{Double, IsOrdered}
use puls_rfc.Scan.{IsSelection, scan-some, scan-none}
use puls_rfc.Steering.{far, dist}
use puls_rfc.Queue.Defs.{
  Request, GlobalQueue, oldest_test, arrival_mark, find_oldest_aged, take, fit_test, prompt_mark,
  find_near, pull_near, pull_slot, max_wait_from, max_wait,
}
use puls_rfc.Queue.Take.{swap_remove-perm, length-swap_remove}

pub oldest-IsSelection : (cap now : ℕ) → IsSelection (oldest_test cap now) arrival_mark
oldest-IsSelection cap now = record {
  irrefl = λ x. ground arith;
  trans = λ s x y h k. ground arith;
}

pub fit-IsSelection :
    {W : Type 0} ⦃d : Double W⦄
    → IsOrdered W
    → (ideal : W) (room : ℤ) → IsSelection (fit_test ideal room) (prompt_mark ideal)
fit-IsSelection {W} ⦃d⦄ laws ideal room = record {
  irrefl = λ x. ground (arith, laws.lt_irrefl (dist ideal x.prompt));
  trans = λ s x y h k. ground (arith, laws.lt_trans (dist ideal y.prompt) (dist ideal x.prompt) s);
}

-- `r` leaves the queue, and nothing else does.
pub record Leaves (g : GlobalQueue) (r : Request) (g' : GlobalQueue) : Type 0 where
  pub perm : Perm g.q (r ∷ g'.q)
  pub fewer : length g.q ≡ length g'.q + 1
  pub age_cap : g'.age_cap ≡ g.age_cap

take-Leaves :
    (g : GlobalQueue) (p : ℕ × Request) → get_elem? g.q p.0 ≡ some p.1 → Leaves g p.1 (take p g).1
unfolding take
take-Leaves g p at = record {
  perm = swap_remove-perm g.q p.0 p.1 at;
  fewer = length-swap_remove g.q p.0 p.1 at;
  age_cap = refl;
}

-- The request waits in the queue past the age cap.
abbrev pub IsAged : ℕ → GlobalQueue → Request → Type 0
IsAged now g r = r.arrival + g.age_cap < now

module _ {W : Type 0} ⦃d : Double W⦄ (laws : IsOrdered W) (ideal : W) (room : ℤ) where
  -- What `pull_near` returns: the nearest of the requests that fit, or nothing, where every request
  -- is too large for the room or as far as the loop's first `best_dist`.
  abbrev pub IsNearPull : GlobalQueue → Option Request × GlobalQueue → Type 0
  IsNearPull g (some r, g') =
      Leaves g r g'
      × (g'.forced ≡ g.forced)
      × (ltb_ℤ room (pos r.prompt) ≡ false)
      × ((j : ℕ) (y : Request)
          → get_elem? g.q j ≡ some y
          → ltb_ℤ room (pos y.prompt) ≡ false
          → d.lt (dist ideal y.prompt) (dist ideal r.prompt) ≡ false)
  IsNearPull g (none, g') =
      (g' ≡ g)
      × ((j : ℕ) (y : Request)
          → get_elem? g.q j ≡ some y
          → ltb_ℤ room (pos y.prompt) ≡ false
          → d.lt (dist ideal y.prompt) far ≡ false)

  -- `pull_near` removes exactly one request, the nearest to the ideal of those that fit the room, or
  -- leaves the queue as it is where no request that fits is in range.
  pub pull_near-IsNearPull : (g : GlobalQueue) → IsNearPull g (pull_near ideal room g)
  unfolding find_near pull_near
  pull_near-IsNearPull g = elim (Option-cases (find_near ideal room g)) [
    | inl e ↦
        let none_fit = scan-none _ _ (fit-IsSelection laws ideal room) far g.q e in
        subst (IsNearPull g) (sym (near_none e)) (
          refl,
          λ j y at fits.
              ground (arith, All-get (λ z. fit_test ideal room far z ≡ false) g.q j y none_fit at),
        )
    | inr (p, e) ↦
        let (at, t, best) = scan-some _ _ (fit-IsSelection laws ideal room) far g.q p e in
        subst (IsNearPull g) (sym (near_some p e)) (
          take-Leaves g p at,
          refl,
          ground arith,
          λ j y here fits. ground (
            arith,
            All-get (λ z. fit_test ideal room (prompt_mark ideal p.1) z ≡ false) g.q j y best here,
          ),
        )
  ]
    where
      near_none : find_near ideal room g ≡ none → pull_near ideal room g ≡ (none, g)
      near_none e = rw (e, pull_near)

      near_some :
          (p : ℕ × Request) → find_near ideal room g ≡ some p → pull_near ideal room g ≡ take p g
      near_some p e = rw (e, pull_near)

  -- What `pull_slot` returns. Past the age cap: the longest waiting of the aged requests, whatever
  -- its length, counted as forced. Where no request is aged: what `pull_near` returns.
  abbrev pub IsSlotPull : ℕ → GlobalQueue → Option Request × GlobalQueue → Type 0
  IsSlotPull now g p =
      ((r : Request) × (p.0 ≡ some r)
        × Leaves g r p.1
        × (p.1.forced ≡ g.forced + 1)
        × IsAged now g r
        × ((j : ℕ) (y : Request)
            → get_elem? g.q j ≡ some y
            → IsAged now g y
            → r.arrival ≤ y.arrival))
      ⊎ ((j : ℕ) (y : Request) → get_elem? g.q j ≡ some y → ¬ IsAged now g y) × IsNearPull g p

  -- `pull_slot` removes the oldest request beyond the age cap and counts it as forced; where none is
  -- beyond the cap it does what `pull_near` does.
  pub pull_slot-IsSlotPull :
      (now : ℕ) (g : GlobalQueue) → IsSlotPull now g (pull_slot ideal room now g)
  unfolding find_oldest_aged pull_slot
  pull_slot-IsSlotPull now g = elim (Option-cases (find_oldest_aged now g)) [
    | inl e ↦
        let none_aged = scan-none _ _ (oldest-IsSelection g.age_cap now) none g.q e in
        subst (IsSlotPull now g) (sym (slot_none e)) (
          inr (
            λ j y at aged. ground (
              arith,
              All-get (λ z. oldest_test g.age_cap now none z ≡ false) g.q j y none_aged at,
            ),
            pull_near-IsNearPull g,
          ))
    | inr (p, e) ↦
        let (at, t, best) = scan-some _ _ (oldest-IsSelection g.age_cap now) none g.q p e in
        let more : GlobalQueue = record g { forced = g.forced + 1 } in
        let left = take-Leaves more p at in
        subst (IsSlotPull now g) (sym (slot_some p e)) (
          inl (
            p.1,
            refl,
            record { perm = left.perm; fewer = left.fewer; age_cap = left.age_cap },
            refl,
            ground arith,
            λ j y here aged. ground (
              arith,
              All-get (λ z. oldest_test g.age_cap now (arrival_mark p.1) z ≡ false) g.q j y best
                  here,
            ),
          ))
  ]
    where
      slot_none :
          find_oldest_aged now g ≡ none → pull_slot ideal room now g ≡ pull_near ideal room g
      slot_none e = rw (e, pull_slot)

      slot_some :
          (p : ℕ × Request)
          → find_oldest_aged now g ≡ some p
          → pull_slot ideal room now g ≡ take p (record g { forced = g.forced + 1 })
      slot_some p e = rw (e, pull_slot)

max_wait_from_lem :
    (now mx : ℕ) (rs : List Request)
    → (mx ≤ max_wait_from now mx rs) × All (λ r. now ≤ r.arrival + max_wait_from now mx rs) rs
unfolding max_wait_from
max_wait_from_lem now mx [] = (omega arith, tt)
max_wait_from_lem now mx (r ∷ rs) =
    let top = if ltb mx (now - r.arrival) then now - r.arrival else mx in
    let (up, rest) = max_wait_from_lem now top rs in (ground arith, (ground arith, rest))

-- The maximum is its start, or the wait of a request.
abbrev IsReached : ℕ → ℕ → List Request → ℕ → Type 0
IsReached now mx rs m =
    (m ≡ mx) ⊎ ((j : ℕ) × (r : Request) × (get_elem? rs j ≡ some r) × (m ≡ now - r.arrival))

IsReached-shift :
    (now mx mx' m : ℕ) (r : Request) (rs : List Request)
    → (mx' ≡ mx) ⊎ (mx' ≡ now - r.arrival)
    → IsReached now mx' rs m
    → IsReached now mx (r ∷ rs) m
IsReached-shift now mx mx' m r rs start (inr (j, x, at, e)) = inr (suc j, x, at, e)
IsReached-shift now mx mx' m r rs (inl s) (inl e) = inl (e ∙ s)
IsReached-shift now mx mx' m r rs (inr s) (inl e) = inr (0, r, refl, e ∙ s)

max_wait_from-IsReached :
    (now mx : ℕ) (rs : List Request) → IsReached now mx rs (max_wait_from now mx rs)
unfolding max_wait_from
max_wait_from-IsReached now mx [] = inl refl
max_wait_from-IsReached now mx (r ∷ rs) =
    let mx' = if ltb mx (now - r.arrival) then now - r.arrival else mx in
    IsReached-shift now mx mx' _ r rs (ground arith) (max_wait_from-IsReached now mx' rs)

-- `max_wait` bounds every wait in the queue, and is 0 or the wait of some request.
pub max_wait_lem :
    (now : ℕ) (g : GlobalQueue)
    → All (λ r. now ≤ r.arrival + max_wait now g) g.q
      × ((max_wait now g ≡ 0)
          ⊎ ((j : ℕ) × (r : Request) × (get_elem? g.q j ≡ some r)
              × (max_wait now g ≡ now - r.arrival)))
unfolding max_wait
max_wait_lem now g = ((max_wait_from_lem now 0 g.q).1, max_wait_from-IsReached now 0 g.q)
