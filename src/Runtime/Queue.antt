-- ===== src/Runtime/Queue.antt =====
-- What `QueueSource::pull_near` (puls-engine/runtime/runtime.cpp) takes out of the queue.
use mathlib.Core.List.Perm
use mathlib.Core.List.{Perm}
use puls_rfc.Prelude.{
  ℕ, zero, suc, ◌+◌, ◌≤◌, ◌≡◌, refl, inl, inr, true, false, Option, none, some, List, [], ◌∷◌, ℤ,
  pos, pos_part, ltb_ℤ, negsuc, get_elem?, remove_at, length, All-get, arith, Option-cases,
  some-injective, subst, sym,
}
use puls_rfc.Double.{Double, IsOrdered}
use puls_rfc.RequestSource.{PulledRequest, Fits}
use puls_rfc.Scan.{scan, IsSelection, scan-some, scan-none}
use puls_rfc.Steering.{dist}
use puls_rfc.Runtime.Defs.{QueueSource, queue_test, dev_mark, queue_pull_near, queue_source}

pub remove_at-perm {ℓ} :
    {A : Type ℓ} (xs : List A) (i : ℕ) (x : A)
    → get_elem? xs i ≡ some x
    → Perm xs (x ∷ remove_at xs i)
remove_at-perm [] i x h = absurd (cc)
remove_at-perm (y ∷ xs) zero x h =
    subst (λ z. Perm (y ∷ xs) (z ∷ xs)) (some-injective y x h) (Perm.refl (y ∷ xs))
remove_at-perm (y ∷ xs) (suc i) x h =
    Perm.trans (Perm.cons y (remove_at-perm xs i x h)) (Perm.swap x y (remove_at xs i))

pub length-remove_at {ℓ} :
    {A : Type ℓ} (xs : List A) (i : ℕ) (x : A)
    → get_elem? xs i ≡ some x
    → length xs ≡ length (remove_at xs i) + 1
length-remove_at [] i x h = absurd (cc)
length-remove_at (y ∷ xs) zero x h = omega arith
length-remove_at (y ∷ xs) (suc i) x h = omega (arith, length-remove_at xs i x h)

pub queue-IsSelection :
    {W : Type 0} ⦃d : Double W⦄
    → IsOrdered W
    → (ideal : W) (room : ℤ) → IsSelection (queue_test ideal room) (dev_mark ideal)
queue-IsSelection {W} ⦃d⦄ laws ideal room = record {
  irrefl = λ x. ground (arith, laws.lt_irrefl (dist ideal x.prompt));
  trans = λ s x y h k. improves s x y h k;
}
  where
    improves :
        (s : Option W) (x y : PulledRequest)
        → queue_test ideal room s x ≡ true
        → queue_test ideal room (dev_mark ideal x) y ≡ true
        → queue_test ideal room s y ≡ true
    improves none x y h k = ground arith
    improves (some b) x y h k =
        ground (arith, laws.lt_trans (dist ideal y.prompt) (dist ideal x.prompt) b)

fits_le : (room : ℤ) (n : ℕ) → ltb_ℤ room (pos n) ≡ false → n ≤ pos_part room
fits_le (pos m) n h = ground arith
fits_le (negsuc m) n h = ground arith

module _ {W : Type 0} ⦃d : Double W⦄ (ideal : W) (room : ℤ) where
  -- `some r`: `r` leaves the queue, fits, and is nearest to the ideal among the requests that fit.
  -- `none`: no request fits, and the queue is as before.
  abbrev pub IsPull : QueueSource → Option PulledRequest × QueueSource → Type 0
  IsPull queue (some r, queue') =
      Perm queue (r ∷ queue')
      × (length queue ≡ length queue' + 1)
      × (r.prompt ≤ pos_part room)
      × ((j : ℕ) (y : PulledRequest)
          → get_elem? queue j ≡ some y
          → ltb_ℤ room (pos y.prompt) ≡ false
          → d.lt (dist ideal y.prompt) (dist ideal r.prompt) ≡ false)
  IsPull queue (none, queue') =
      (queue' ≡ queue)
      × ((j : ℕ) (y : PulledRequest)
          → get_elem? queue j ≡ some y
          → ltb_ℤ room (pos y.prompt) ≡ true)

  -- `pull_near` takes exactly one request, the nearest of those that fit, or none where none fits.
  pub queue_pull_near-IsPull :
      IsOrdered W → (queue : QueueSource) → IsPull queue (queue_pull_near ideal room queue)
  unfolding queue_pull_near
  queue_pull_near-IsPull laws queue =
      elim (Option-cases (scan (queue_test ideal room) (dev_mark ideal) 0 none none queue)) [
        | inl e ↦
            let none_fit = scan-none _ _ (queue-IsSelection laws ideal room) none queue e in
            subst (IsPull queue) (sym (pulled_none e)) (
              refl,
              λ j y at. ground (
                arith,
                All-get (λ z. queue_test ideal room none z ≡ false) queue j y none_fit at,
              ),
            )
        | inr (p, e) ↦
            let (at, t, best) = scan-some _ _ (queue-IsSelection laws ideal room) none queue p e in
            subst (IsPull queue) (sym (pulled_some p e)) (
              remove_at-perm queue p.0 p.1 at,
              length-remove_at queue p.0 p.1 at,
              fits_le room p.1.prompt (ground arith),
              λ j y here fits. ground (
                arith,
                All-get (λ z. queue_test ideal room (dev_mark ideal p.1) z ≡ false) queue j y best
                    here,
              ),
            )
      ]
    where
      pulled_none :
          scan (queue_test ideal room) (dev_mark ideal) 0 none none queue ≡ none
          → queue_pull_near ideal room queue ≡ (none, queue)
      pulled_none e = rw (e, queue_pull_near)

      pulled_some :
          (p : ℕ × PulledRequest)
          → scan (queue_test ideal room) (dev_mark ideal) 0 none none queue ≡ some p
          → queue_pull_near ideal room queue ≡ (some p.1, remove_at queue p.0)
      pulled_some p e = rw (e, queue_pull_near)

module _ {W : Type 0} ⦃d : Double W⦄ (laws : IsOrdered W) where
  fits_of_pull :
      (ideal : W) (room : ℤ) (queue : QueueSource) (o : Option PulledRequest × QueueSource)
      → IsPull ideal room queue o
      → (r : PulledRequest) → o.0 ≡ some r
      → r.prompt ≤ pos_part room
  fits_of_pull ideal room queue (none, q) p r e = absurd (cc)
  fits_of_pull ideal room queue (some y, q) p r e =
      subst (λ z. z.prompt ≤ pos_part room) (some-injective y r e) p.2

  pub queue_source-Fits : Fits (queue_source {W = W})
  unfolding queue_source
  queue_source-Fits ideal room queue r e =
      fits_of_pull ideal room queue (queue_pull_near ideal room queue)
        (queue_pull_near-IsPull ideal room laws queue) r e
