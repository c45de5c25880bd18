-- ===== src/Examples/Derivation.antt =====
-- The derivation and the demo with numbers of twelve decimals for `double`.
use puls_rfc.Prelude.{
  ℕ, zero, suc, ◌+◌, ◌*◌, ◌-◌, ◌/◌, ◌^◌, ◌≤◌, ◌≡◌, refl, subst, ap, some, List, length, get_elem?,
  sum_by, ◌⊎◌, sym, true, false, not, ltb_ℤ, ℤ, pos, negsuc, sub_ℕ, pos_part, ◌+ℤ◌, ◌-ℤ◌, ◌*ℤ◌,
  if◌then◌else◌, arith,
}
use puls_rfc.Double.{Double, IsOrdered}
use puls_rfc.RequestSource.{PulledRequest}
use puls_rfc.Runtime.{new_runtime, run_runtime_demo}
use puls_rfc.Runtime.Conserved.{IsConserved}
use puls_rfc.Runtime.Queued.{IsDemoRequest}
use puls_rfc.Runtime.Serving
use puls_rfc.Runtime.Serving.{IsServing}
use puls_rfc.OperatingPoint.{ModelSpec, HwSpec, default_options}
use puls_rfc.Derive.{decode_gap, ndec_ffn_eq_gpua, derive_operating_point, midpoint, like_at_lo}
use puls_rfc.Derive.Width.{IsHalving}
use puls_rfc.Derive.Bracket
use puls_rfc.Derive.Bracket.{IsBracket, HoldsOn, doubled}

-- Numbers in units of 10^-12. A product and a quotient are cut off.
pub record Fixed : Type 0 where
  pub units : ℤ

abbrev fixed : ℕ → Fixed
fixed n = record { units = pos n }

-- The quotient by a positive number, rounded down.
abbrev over : ℤ → ℕ → ℤ
over (pos a) b = pos (a / b)
over (negsuc a) b = negsuc (a / b)

instance abbrev fixed_double : Double Fixed
fixed_double = record {
  of_int = λ n. record { units = pos 1_000_000_000_000 *ℤ n };
  decimal = λ m k. fixed (1_000_000_000_000 * m / 10 ^ k);
  add = λ a b. record { units = a.units +ℤ b.units };
  sub = λ a b. record { units = a.units -ℤ b.units };
  mul = λ a b. record { units = over (a.units *ℤ b.units) 1_000_000_000_000 };
  div = λ a b. record { units = over (pos 1_000_000_000_000 *ℤ a.units) (pos_part b.units) };
  fabs = λ a. if ltb_ℤ a.units (pos 0) then record { units = pos 0 -ℤ a.units } else a;
  lt = λ a b. ltb_ℤ a.units b.units;
  le = λ a b. not (ltb_ℤ b.units a.units);
  llround = λ a. over (a.units +ℤ pos 500_000_000_000) 1_000_000_000_000;
  trunc = λ a. over a.units 1_000_000_000_000;
}

abbrev In : Fixed → Type 0
In a = a.units ≡ pos (pos_part a.units)

abbrev gap : Fixed → Fixed → ℕ
gap a b = pos_part b.units - pos_part a.units

sub_zero : (a : ℕ) → sub_ℕ a 0 ≡ pos a
sub_zero a = ground arith

sum_pos : (m n : ℕ) → pos m +ℤ pos n ≡ pos (m + n)
sum_pos m n = sub_zero (m + n)

product_pos : (m n : ℕ) → pos m *ℤ pos n ≡ pos (m * n)
product_pos m n = ground arith

-- The midpoint of numbers that are not negative.
mean :
    (m n : ℕ) → midpoint (fixed m) (fixed n) ≡ fixed (500_000_000_000 * (m + n) / 1_000_000_000_000)
unfolding midpoint
mean m n = rw (sum_pos m n, product_pos 500_000_000_000 (m + n)) refl

on_naturals :
    (P : Fixed → Fixed → Type 0)
    → ((m n : ℕ) → P (fixed m) (fixed n))
    → (lo hi : Fixed) → In lo
    → In hi
    → P lo hi
on_naturals P h lo hi l k =
    let left : fixed (pos_part lo.units) ≡ lo = ap (λ u. record { units = u }) (sym l) in
    let right : fixed (pos_part hi.units) ≡ hi = ap (λ u. record { units = u }) (sym k) in
    subst (λ a. P a hi) left
      (subst (λ b. P (fixed (pos_part lo.units)) b) right
        (h (pos_part lo.units) (pos_part hi.units)))

fixed-IsHalving : IsHalving Fixed In gap
fixed-IsHalving = record {
  stays = on_naturals (λ lo hi. In (midpoint lo hi)) (λ m n. rw (mean m n) refl);
  lower_half =
      on_naturals (λ lo hi. 2 * gap lo (midpoint lo hi) ≤ gap lo hi + 2)
        (λ m n. rw (mean m n) (omega arith));
  upper_half =
      on_naturals (λ lo hi. 2 * gap (midpoint lo hi) hi ≤ gap lo hi + 2)
        (λ m n. rw (mean m n) (omega arith));
}

-- The specifications that the programs derive from.
abbrev llama : ModelSpec
llama = record {
  num_layers = 80;
  hidden = 8192;
  num_heads = 64;
  num_kv_heads = 8;
  head_dim = 128;
  ffn_intermediate = 28672;
  weight_bytes_per_elem = 2;
}

abbrev b200 : HwSpec Fixed
b200 = record {
  gpu_peak_tflops = fixed_double.decimal 2200 0;
  gpu_mfu = fixed_double.decimal 6 1;
  num_gpus_a = 8;
  num_gpus_b = 8;
}

-- A context of 100000 tokens.
abbrev context : Fixed
context = fixed 100_000_000_000_000_000

ndec_ffn_eq_gpua_lem_example :
    let residue = decode_gap llama b200 128 context in
    (fixed_double.lt (fixed 0) (residue (fixed 0)) ≡ true)
      × (ndec_ffn_eq_gpua llama b200 128 context ≡ fixed 0)
    ⊎ ((r : Fixed × Fixed) × (fixed_double.lt (fixed 0) (residue (fixed 0)) ≡ false)
        × (ndec_ffn_eq_gpua llama b200 128 context ≡ midpoint r.0 r.1)
        × IsBracket
            (λ n. fixed_double.lt (residue n) (fixed 0))
            (fixed 0)
            (fixed 1_000_000_000_000_000_000)
            r
        × (gap r.0 r.1 ≤ 2))
ndec_ffn_eq_gpua_lem_example =
    Bracket.ndec_ffn_eq_gpua_lem llama b200 128 In gap fixed-IsHalving context refl refl
      (omega arith)

-- `j` doublings of a number up to `2 ^ m` stay up to `2 ^ (m + n)`, for `j` up to `n`.
abbrev IsUpTo : ℕ → Fixed → Type 0
IsUpTo m a = In a × (pos_part a.units ≤ 2 ^ m)

twice :
    (x : ℕ)
    → fixed_double.mul (fixed x) (fixed 2_000_000_000_000)
      ≡ fixed (x * 2_000_000_000_000 / 1_000_000_000_000)
twice x = rw (product_pos x 2_000_000_000_000) refl

weaken : (m n : ℕ) (a : Fixed) → suc m ≡ n → IsUpTo m a → IsUpTo n a
weaken m n a e (natural, small) = subst (λ p. IsUpTo p a) e (natural, omega (arith, small))

doubled-IsUpTo : (n j m x : ℕ) → j ≤ n → x ≤ 2 ^ m → IsUpTo (m + n) (doubled j (fixed x))
doubled-IsUpTo zero zero m x few small =
    let same : m ≡ m + 0 = omega arith in subst (λ p. IsUpTo p (fixed x)) same (refl, small)
doubled-IsUpTo zero (suc j) m x few small = absurd (omega arith)
doubled-IsUpTo (suc n) zero m x few small =
    weaken (m + n) (m + suc n) (fixed x) (omega arith)
      (doubled-IsUpTo n zero m x (omega arith) small)
doubled-IsUpTo (suc n) (suc j) m x few small =
    let next = x * 2_000_000_000_000 / 1_000_000_000_000 in
    let same : suc m + n ≡ m + suc n = omega arith in
    subst (λ a. IsUpTo (m + suc n) (doubled j a)) (sym (twice x))
      (subst (λ p. IsUpTo p (doubled j (fixed next))) same
        (doubled-IsUpTo n j (suc m) next (omega arith) (omega arith)))

derive_operating_point-bracket_example :
    let like = like_at_lo llama b200 128 in
    (r : Fixed × Fixed) × ((derive_operating_point llama b200 128 default_options).ctx_balance
      ≡ midpoint r.0 r.1)
    × ((r.0 ≡ fixed 1_000_000_000_000_000) ⊎ (like r.0 ≡ true))
    × ((like r.1 ≡ false) ⊎ HoldsOn like 24 (fixed 400_000_000_000_000_000))
    × (gap r.0 r.1 ≤ 2)
derive_operating_point-bracket_example =
    Bracket.derive_operating_point-bracket llama b200 128 In gap fixed-IsHalving default_options
      refl within
  where
    within :
        (j : ℕ)
        → j ≤ 24
        → In (doubled j (fixed 400_000_000_000_000_000))
          × (gap (fixed 1_000_000_000_000_000) (doubled j (fixed 400_000_000_000_000_000))
              ≤ 2 ^ 200)
    within j few =
        let (natural, small) = doubled-IsUpTo 24 j 59 400_000_000_000_000_000 few (omega arith) in
        (natural, omega (arith, small))

Fixed-IsOrdered : IsOrdered Fixed
Fixed-IsOrdered = record { lt_irrefl = λ x. ground arith; lt_trans = λ x y z h k. ground arith }

run_runtime_demo_lem_example :
    let op = (new_runtime llama b200 128).0 in
    let (dones, n) = run_runtime_demo llama b200 128 in
    let c = pos_part (fixed_double.trunc op.ctx_balance) in
    (queued : List PulledRequest) × (length queued ≡ op.decode_pool + 20)
    × ((k : ℕ) (r : PulledRequest) → get_elem? queued k ≡ some r → IsDemoRequest c k r)
    × IsConserved queued (sum_by (λ done. done) dones) n
    × (length n.pool ≤ op.decode_pool)
    × IsServing Fixed-IsOrdered op n
run_runtime_demo_lem_example = Serving.run_runtime_demo_lem Fixed-IsOrdered llama b200 128
