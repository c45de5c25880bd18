-- ===== src/Derive/Width.antt =====
-- How far apart the bisections of puls-engine/core/derive.cpp leave the ends of the bracket.
use puls_rfc.Prelude.{ℕ, zero, suc, ◌+◌, ◌*◌, ◌^◌, ◌≤◌, ◌≡◌, inl, inr, Bool, arith, Bool-cases}
use puls_rfc.Double.{Double}
use puls_rfc.Derive.Defs.{midpoint, bisect}

-- What the rounding of `0.5 * (lo + hi)` keeps: `In` are the values at hand, and `gap` counts units
-- between two of them, for a unit of twice the largest rounding error there. A midpoint halves the
-- gap, up to a unit.
pub record IsHalving (W : Type 0) ⦃d : Double W⦄ (In : W → Type 0) (gap : W → W → ℕ) : Type 0 where
  pub stays : (lo hi : W) → In lo → In hi → In (midpoint lo hi)
  pub lower_half : (lo hi : W) → In lo → In hi → 2 * gap lo (midpoint lo hi) ≤ gap lo hi + 2
  pub upper_half : (lo hi : W) → In lo → In hi → 2 * gap (midpoint lo hi) hi ≤ gap lo hi + 2

pow_suc : (k : ℕ) → 2 ^ suc k ≡ 2 * 2 ^ k
pow_suc k = omega arith

module _ {W : Type 0} ⦃d : Double W⦄ (In : W → Type 0) (gap : W → W → ℕ)
    (halving : IsHalving W In gap) where
  -- `k` rounds bring a gap of up to `2 ^ k` units down to two.
  pub bisect-gap :
      (test : W → Bool) (k : ℕ) (lo hi : W)
      → In lo
      → In hi
      → gap lo hi ≤ 2 ^ k + 1
      → (let (lo', hi') = bisect test k lo hi in gap lo' hi' ≤ 2)
  unfolding bisect
  bisect-gap test zero lo hi l h wide = omega arith
  bisect-gap test (suc k) lo hi l h wide =
      let mid = midpoint lo hi in
      let in_mid = halving.stays lo hi l h in
      let lower = halving.lower_half lo hi l h in
      let upper = halving.upper_half lo hi l h in
      let power = pow_suc k in
      elim (Bool-cases (test mid)) [
        | inl up ↦ rw (up, bisect) (bisect-gap test k mid hi in_mid h (omega arith))
        | inr down ↦ rw (down, bisect) (bisect-gap test k lo mid l in_mid (omega arith))
      ]
