-- ===== src/Steering/Oldest.antt =====
-- A batch that starts with nothing used serves the longest waiting (the forced pick of
-- `steer_decode_set`, puls-engine/core/steering.cpp).
use puls_rfc.Prelude.{
  ℕ, zero, suc, ◌≤◌, ◌<◌, ◌≡◌, refl, ◌⊎◌, inl, inr, Bool, true, false, some, List, [], ◌∷◌, map,
  arith, length, get_elem?, set, replicate, get_elem?-set_self, lt-length_of_get_elem?,
}
use puls_rfc.Double.{Double, IsOrdered}
use puls_rfc.OperatingPoint.{OperatingPoint}
use puls_rfc.Steering.Age.{mark_all}
use puls_rfc.Steering.Decode.{Decoder, decode_ideal, steer_decode_set}
use puls_rfc.Steering.Greedy.{IsFree, IsOldest, IsNearest}
use puls_rfc.Steering.Run.{Run, steer_decode_set-Run}
use puls_rfc.Steering.Batch.{mark_all-keeps_true}
use puls_rfc.Steering.Waits.{ServesOldest, old_marked-pos, old-find}

pub get-replicate : {A : Type 0} (n i : ℕ) (a : A) → i < n → get_elem? (replicate n a) i ≡ some a
get-replicate zero i a h = absurd (omega arith)
get-replicate (suc n) zero a h = refl
get-replicate (suc n) (suc i) a h = get-replicate n i a (omega arith)

pub get-map :
    {A B : Type 0} (f : A → B) (xs : List A) (i : ℕ) (b : B)
    → get_elem? (map f xs) i ≡ some b
    → (a : A) × (get_elem? xs i ≡ some a) × (b ≡ f a)
get-map f [] i b h = absurd (cc)
get-map f (x ∷ xs) zero b h = (x, refl, cc)
get-map f (x ∷ xs) (suc i) b h = get-map f xs i b h

pub map-get :
    {A B : Type 0} (f : A → B) (xs : List A) (i : ℕ) (a : A)
    → get_elem? xs i ≡ some a
    → get_elem? (map f xs) i ≡ some (f a)
map-get f [] i a h = absurd (cc)
map-get f (x ∷ xs) zero a h = cc
map-get f (x ∷ xs) (suc i) a h = map-get f xs i a h

abbrev pub waits_of : List Decoder → List ℕ
waits_of = map (λ x. x.wait)

module _ {W : Type 0} ⦃d : Double W⦄ (op : OperatingPoint W) (pool : List Decoder) where
  -- The first pick has waited at least as long as any free decoder at the age cap.
  first_pick :
      (left : ℕ) (used : List Bool) (sel : List ℕ) (j : ℕ) (y : Decoder)
      → 0 < left
      → 0 < op.kv_operating_target
      → Run op pool left 0 used sel
      → IsFree op used pool j y
      → op.age_cap ≤ y.wait
      → (i : ℕ) × (x : Decoder) × (get_elem? (mark_all used sel) i ≡ some true)
        × (get_elem? pool i ≡ some x)
        × (y.wait ≤ x.wait)
  unfolding mark_all
  first_pick left used [] j y pos target (inl done) free aged = absurd (omega arith)
  first_pick left used [] j y pos target (inr (inl done)) free aged = absurd (omega arith)
  first_pick left used [] j y pos target (inr (inr out)) free aged =
      absurd (omega (arith, (out j y free).0))
  first_pick zero used (i ∷ is) j y pos target run free aged = absurd run
  first_pick (suc left) used (i ∷ is) j y pos target (x, below, ((mine, at), pick), run) free aged =
      (
        i,
        x,
        mark_all-keeps_true (set used i true) is i
            (get_elem?-set_self used i true (lt-length_of_get_elem? used i mine)),
        at,
        older pick,
      )
    where
      older :
          IsOldest op used pool x ⊎ IsNearest op used pool (decode_ideal op (suc left) 0) x
          → y.wait ≤ x.wait
      older (inl (old, longest)) = longest j y free
      older (inr near) = absurd (omega (arith, (near j y free).0))

  pub steer_decode_set-ServesOldest :
      IsOrdered W
      → 0 < op.decode_count_target
      → 0 < op.kv_operating_target
      → ServesOldest op.age_cap
          (steer_decode_set op pool (replicate (length pool) false)).1
          (waits_of pool)
  steer_decode_set-ServesOldest laws count target w cap some_old =
      let used = replicate (length pool) false in
      let (run, marks) = steer_decode_set-Run op pool laws used in
      let (j, v, at, le) = old-find w (waits_of pool) some_old in
      let (y, here, same) = get-map (λ x. x.wait) pool j v at in
      let free : IsFree op used pool j y =
        (get-replicate (length pool) j false (lt-length_of_get_elem? pool j here), here) in
      let (i, x, marked, mine, older) =
        first_pick op.decode_count_target used _ j y count target run free (omega arith) in
      rw marks (
        old_marked-pos w i _ (waits_of pool) x.wait marked (map-get (λ x. x.wait) pool i x mine)
          (omega arith))
