-- ===== src/Double.antt =====
-- What the scheduler does with a `double`: conversions, the four operations, `std::fabs`,
-- the comparisons, `std::llround` and the truncating casts. The type is a parameter.
use puls_rfc.Prelude.{ℕ, ◌/◌, ◌≡◌, Bool, true, false, not, ℤ, pos, negsuc, ltb_ℤ, arith}
use puls_rfc.Prelude.{◌+ℤ◌, ◌-ℤ◌, ◌*ℤ◌, ◌+◌, ◌^◌}

pub record Double (W : Type 0) : Type 0 where
  pub of_int : ℤ → W
  -- `decimal m k` is the literal m / 10^k
  pub decimal : ℕ → ℕ → W
  pub add : W → W → W
  pub sub : W → W → W
  pub mul : W → W → W
  pub div : W → W → W
  pub fabs : W → W
  pub lt : W → W → Bool
  pub le : W → W → Bool
  pub llround : W → ℤ
  pub trunc : W → ℤ

-- IEEE 754 `<` is irreflexive and transitive on all values, NaN included.
pub record IsOrdered (W : Type 0) ⦃d : Double W⦄ : Type 0 where
  pub lt_irrefl : (x : W) → d.lt x x ≡ false
  pub lt_trans : (x y z : W) → d.lt x y ≡ true → d.lt y z ≡ true → d.lt x z ≡ true

-- The operations and laws can be met: whole numbers, with quotients cut off.
abbrev pub Whole : Type 0
Whole = ℤ

abbrev abs : ℤ → ℤ
abs (pos n) = pos n
abs (negsuc n) = pos (n + 1)

-- Truncates toward zero.
abbrev quot : ℤ → ℤ → ℤ
quot (pos a) (pos b) = pos (a / b)
quot (pos a) (negsuc b) = pos 0 -ℤ pos (a / (b + 1))
quot (negsuc a) (pos b) = pos 0 -ℤ pos ((a + 1) / b)
quot (negsuc a) (negsuc b) = pos ((a + 1) / (b + 1))

instance abbrev pub whole_double : Double Whole
whole_double = record {
  of_int = λ n. n;
  decimal = λ m k. pos (m / 10 ^ k);
  add = λ a b. a +ℤ b;
  sub = λ a b. a -ℤ b;
  mul = λ a b. a *ℤ b;
  div = quot;
  fabs = abs;
  lt = ltb_ℤ;
  le = λ a b. not (ltb_ℤ b a);
  llround = λ a. a;
  trunc = λ a. a;
}

pub Whole-IsOrdered : IsOrdered Whole
Whole-IsOrdered = record { lt_irrefl = λ x. ground arith; lt_trans = λ x y z h k. ground arith }
