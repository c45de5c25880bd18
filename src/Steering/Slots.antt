-- ===== src/Steering/Slots.antt =====
-- Reading the pool beside its `used` marks, for the proofs on puls-engine/core/steering.cpp.
use puls_rfc.Prelude.{ℕ, zero, suc, ◌≡◌, Bool, some, List, [], ◌∷◌, get_elem?, All, All-get, arith}
use puls_rfc.Steering.Decode.{slots}

module _ {A : Type 0} where
  pub get-slots :
      (us : List Bool) (xs : List A) (i : ℕ) (u : Bool) (x : A)
      → get_elem? us i ≡ some u
      → get_elem? xs i ≡ some x
      → get_elem? (slots us xs) i ≡ some (u, x)
  unfolding slots
  get-slots [] xs i u x h k = absurd (cc)
  get-slots (v ∷ us) [] i u x h k = absurd (cc)
  get-slots (v ∷ us) (y ∷ xs) zero u x h k = cc
  get-slots (v ∷ us) (y ∷ xs) (suc i) u x h k = get-slots us xs i u x h k

  pub slots-get :
      (us : List Bool) (xs : List A) (i : ℕ) (p : Bool × A)
      → get_elem? (slots us xs) i ≡ some p
      → (get_elem? us i ≡ some p.0) × (get_elem? xs i ≡ some p.1)
  unfolding slots
  slots-get [] xs i p h = absurd (cc)
  slots-get (v ∷ us) [] i p h = absurd (cc)
  slots-get (v ∷ us) (y ∷ xs) zero p h = ground arith
  slots-get (v ∷ us) (y ∷ xs) (suc i) p h = slots-get us xs i p h

  -- A property of every slot, at an index.
  pub All-slots {κ} :
      (P : Bool × A → Type κ) (us : List Bool) (xs : List A) (i : ℕ) (u : Bool) (x : A)
      → All P (slots us xs)
      → get_elem? us i ≡ some u
      → get_elem? xs i ≡ some x
      → P (u, x)
  All-slots P us xs i u x h a b = All-get P (slots us xs) i (u, x) h (get-slots us xs i u x a b)
