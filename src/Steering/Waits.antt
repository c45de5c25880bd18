-- ===== src/Steering/Waits.antt =====
-- How the waits of a pool grow, for the bound on starvation under the age cap of
-- puls-engine/core/steering.cpp. A pool is seen as the list of its waits.
use puls_rfc.Prelude.{
  ℕ, zero, suc, ◌+◌, ◌-◌, ◌≤◌, ◌<◌, ◌≡◌, refl, Bool, true, some, List, [], ◌∷◌, ◌++◌, arith, leb,
  length, get_elem?, if◌then◌else◌, inl, inr, Bool-cases, leb→le,
}

-- How many have waited `w` rounds or more.
unfoldable pub old : ℕ → List ℕ → ℕ
old w [] = 0
old w (x ∷ xs) = (if leb w x then 1 else 0) + old w xs

-- How many of them are marked.
unfoldable pub old_marked : ℕ → List Bool → List ℕ → ℕ
old_marked w (u ∷ us) (x ∷ xs) = (if u then if leb w x then 1 else 0 else 0) + old_marked w us xs
old_marked w _ _ = 0

-- A round: the marked start again, the others wait on.
unfoldable pub age_waits : List Bool → List ℕ → List ℕ
age_waits (u ∷ us) (x ∷ xs) = (if u then 0 else x + 1) ∷ age_waits us xs
age_waits _ xs = xs

pub length-age_waits : (us : List Bool) (xs : List ℕ) → length (age_waits us xs) ≡ length xs
unfolding age_waits
length-age_waits [] xs = refl
length-age_waits (u ∷ us) [] = refl
length-age_waits (u ∷ us) (x ∷ xs) = omega (arith, length-age_waits us xs)

pub old-age_waits :
    (w : ℕ) (us : List Bool) (xs : List ℕ)
    → length us ≡ length xs
    → old (suc w) (age_waits us xs) + old_marked w us xs ≡ old w xs
unfolding old old_marked age_waits
old-age_waits w [] [] h = omega arith
old-age_waits w [] (x ∷ xs) h = absurd (omega arith)
old-age_waits w (u ∷ us) [] h = absurd (omega arith)
old-age_waits w (u ∷ us) (x ∷ xs) h = ground (arith, old-age_waits w us xs)

pub old_marked-pos :
    (w i : ℕ) (us : List Bool) (xs : List ℕ) (x : ℕ)
    → get_elem? us i ≡ some true
    → get_elem? xs i ≡ some x
    → w ≤ x
    → 0 < old_marked w us xs
unfolding old_marked
old_marked-pos w i [] xs x h k le = absurd (cc)
old_marked-pos w i (u ∷ us) [] x h k le = absurd (cc)
old_marked-pos w zero (u ∷ us) (y ∷ xs) x h k le = ground arith
old_marked-pos w (suc i) (u ∷ us) (y ∷ xs) x h k le =
    omega (arith, old_marked-pos w i us xs x h k le)

pub old-find :
    (w : ℕ) (xs : List ℕ) → 0 < old w xs → (i : ℕ) × (x : ℕ) × (get_elem? xs i ≡ some x) × (w ≤ x)
unfolding old
old-find w [] h = absurd (omega arith)
old-find w (x ∷ xs) h = elim (Bool-cases (leb w x)) [
  | inl hit ↦ (0, x, refl, leb→le w x hit)
  | inr miss ↦ let (i, y, at, le) = old-find w xs (ground arith) in (suc i, y, at, le)
]

pub old-le-length : (w : ℕ) (xs : List ℕ) → old w xs ≤ length xs
unfolding old
old-le-length w [] = omega arith
old-le-length w (x ∷ xs) = ground (arith, old-le-length w xs)

pub old-append : (w : ℕ) (xs ys : List ℕ) → old w (xs ++ ys) ≡ old w xs + old w ys
unfolding old
old-append w [] ys = omega arith
old-append w (x ∷ xs) ys = omega (arith, old-append w xs ys)

pub old-zero : (w i : ℕ) (xs : List ℕ) (x : ℕ) → old w xs ≡ 0 → get_elem? xs i ≡ some x → x < w
unfolding old
old-zero w i [] x h k = absurd (cc)
old-zero w zero (y ∷ xs) x h k = ground arith
old-zero w (suc i) (y ∷ xs) x h k = old-zero w i xs x (omega arith) k

-- At most `n` decoders, of which at most `n - j` have waited `age_cap + j` rounds.
pub record IsPaced (age_cap n : ℕ) (xs : List ℕ) : Type 0 where
  pub short : length xs ≤ n
  pub paced : (j : ℕ) → old (age_cap + suc j) xs ≤ n - suc j

-- A round marks one of the longest waiting, if any has reached the age cap.
abbrev pub ServesOldest : ℕ → List Bool → List ℕ → Type 0
ServesOldest age_cap us xs = (w : ℕ) → age_cap ≤ w → 0 < old w xs → 0 < old_marked w us xs

module _ (age_cap n : ℕ) (us : List Bool) (xs : List ℕ) where
  paced_le : IsPaced age_cap n xs → (j : ℕ) → old (age_cap + j) xs ≤ n - j
  paced_le p zero = omega (arith, old-le-length (age_cap + 0) xs, p.short)
  paced_le p (suc j) = p.paced j

  pub age_waits-IsPaced :
      length us ≡ length xs
      → ServesOldest age_cap us xs
      → IsPaced age_cap n xs
      → IsPaced age_cap n (age_waits us xs)
  age_waits-IsPaced same serves p = record {
    short = omega (arith, length-age_waits us xs, p.short);
    paced = λ j. step j;
  }
    where
      step : (j : ℕ) → old (age_cap + suc j) (age_waits us xs) ≤ n - suc j
      step j =
          let e : age_cap + suc j ≡ suc (age_cap + j) = omega arith in
          rw e (
            grind (
              arith,
              old-age_waits (age_cap + j) us xs same,
              paced_le p j,
              serves (age_cap + j) (omega arith),
            ))

-- Nobody in a paced pool has waited as long as the age cap and the pool's size together.
pub IsPaced-wait :
    (age_cap n i : ℕ) (xs : List ℕ) (x : ℕ)
    → IsPaced age_cap n xs
    → get_elem? xs i ≡ some x
    → x < age_cap + n
IsPaced-wait age_cap zero i [] x p at = absurd (cc)
IsPaced-wait age_cap zero i (y ∷ xs) x p at = absurd (omega (arith, p.short))
IsPaced-wait age_cap (suc n) i xs x p at =
    old-zero (age_cap + suc n) i xs x (omega (arith, p.paced n)) at
