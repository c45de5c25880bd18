-- ===== src/Queue/Take.antt =====
-- Removal by swap with the last element (`take` of puls-engine/scheduler/queue.cpp).
use mathlib.Core.List.Perm
use mathlib.Core.List.{Perm}
use puls_rfc.Prelude.{
  ℕ, zero, suc, ◌+◌, ◌<◌, ◌≡◌, refl, some, List, [], ◌∷◌, set, get_elem?, length, arith, subst,
  some-injective, length-set,
}
use puls_rfc.Queue.Defs.{back, pop_back, swap_remove}

module _ {A : Type 0} where
  pop_back-perm : (x : A) (xs : List A) → Perm (x ∷ xs) (back x xs ∷ pop_back (x ∷ xs))
  pop_back-perm x [] = Perm.refl (x ∷ [])
  pop_back-perm x (y ∷ ys) =
      Perm.trans (Perm.cons x (pop_back-perm y ys)) (Perm.swap (back y ys) x (pop_back (y ∷ ys)))

  pop_back-cons :
      (x : A) (y : A) (ys : List A) (i : ℕ) (b : A)
      → pop_back (x ∷ set (y ∷ ys) i b) ≡ x ∷ pop_back (set (y ∷ ys) i b)
  pop_back-cons x y ys zero b = refl
  pop_back-cons x y ys (suc i) b = refl

  -- What is removed and what is left are what was there.
  pub swap_remove-perm :
      (xs : List A) (i : ℕ) (a : A) → get_elem? xs i ≡ some a → Perm xs (a ∷ swap_remove xs i)
  unfolding swap_remove
  swap_remove-perm [] i a h = absurd (cc)
  swap_remove-perm (x ∷ []) zero a h =
      subst (λ z. Perm (x ∷ []) (z ∷ [])) (some-injective x a h) (Perm.refl (x ∷ []))
  swap_remove-perm (x ∷ []) (suc i) a h = absurd (cc)
  swap_remove-perm (x ∷ y ∷ ys) zero a h =
      subst (λ z. Perm (x ∷ y ∷ ys) (z ∷ back y ys ∷ pop_back (y ∷ ys))) (some-injective x a h)
        (Perm.cons x (pop_back-perm y ys))
  swap_remove-perm (x ∷ y ∷ ys) (suc i) a h = rw (pop_back-cons x y ys i (back y ys)) (
      Perm.trans (Perm.cons x (swap_remove-perm (y ∷ ys) i a h))
        (Perm.swap a x (pop_back (set (y ∷ ys) i (back y ys)))))

  pub length-pop_back : (xs : List A) (x : A) → length (x ∷ xs) ≡ length (pop_back (x ∷ xs)) + 1
  length-pop_back [] x = omega arith
  length-pop_back (y ∷ ys) x = omega (arith, length-pop_back ys y)

  pub length-swap_remove :
      (xs : List A) (i : ℕ) (a : A)
      → get_elem? xs i ≡ some a
      → length xs ≡ length (swap_remove xs i) + 1
  unfolding swap_remove
  length-swap_remove [] i a h = absurd (cc)
  length-swap_remove (x ∷ xs) zero a h = omega (arith, length-pop_back xs (back x xs))
  length-swap_remove (x ∷ xs) (suc i) a h =
      omega (arith, length-pop_back (set xs i (back x xs)) x, length-set xs i (back x xs))

  -- What stands before the removed element stays where it is.
  pub get-swap_remove :
      (xs : List A) (i j : ℕ) (a : A)
      → get_elem? xs i ≡ some a
      → j < i
      → get_elem? (swap_remove xs i) j ≡ get_elem? xs j
  unfolding swap_remove
  get-swap_remove [] i j a h below = absurd (cc)
  get-swap_remove (x ∷ xs) zero j a h below = absurd (omega arith)
  get-swap_remove (x ∷ []) (suc i) j a h below = absurd (cc)
  get-swap_remove (x ∷ y ∷ ys) (suc i) zero a h below = rw (pop_back-cons x y ys i (back y ys)) refl
  get-swap_remove (x ∷ y ∷ ys) (suc i) (suc j) a h below =
      rw (pop_back-cons x y ys i (back y ys)) (get-swap_remove (y ∷ ys) i j a h (omega arith))
