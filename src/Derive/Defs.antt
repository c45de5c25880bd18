-- ===== src/Derive/Defs.antt =====
-- `derive_operating_point` of puls-engine/core/derive.cpp and its two bisections, of 200 rounds each.
-- A count that the source rounds from a `double` is not negative; the model has 0 there.
use puls_rfc.Prelude.{
  ℕ, zero, suc, ◌+◌, ◌*◌, Bool, true, false, not, ℤ, pos, ◌+ℤ◌, pos_part, if◌then◌else◌,
}
use puls_rfc.Double.{Double}
use puls_rfc.OperatingPoint.{
  ModelSpec, HwSpec, OperatingPoint, DeriveOptions, kv_bytes_per_token, instance_a_weight_bytes,
  hbm4_stacks_per_gpu, pim_channels_per_stack,
}
use puls_rfc.Optime.{t_pim_us, t_ffn_us, t_gpu_a_us}

abbrev pub same_sign : Bool → Bool → Bool
same_sign true b = b
same_sign false b = not b

module _ {W : Type 0} ⦃d : Double W⦄ where
  -- `0.5 * (lo + hi)`
  unfoldable pub midpoint : W → W → W
  midpoint lo hi = d.mul (d.decimal 5 1) (d.add lo hi)

  -- `k` rounds of `if (test(mid)) lo = mid; else hi = mid;`
  unfoldable pub bisect : (W → Bool) → ℕ → W → W → W × W
  unfolding midpoint
  bisect test zero lo hi = (lo, hi)
  bisect test (suc k) lo hi =
      let mid = midpoint lo hi in
      elim (test mid) [ true ↦ bisect test k mid hi | false ↦ bisect test k lo mid ]

  -- At most `k` rounds of `if (test(hi)) hi *= 2; else break;`
  unfoldable pub extend : (W → Bool) → ℕ → W → W
  extend test zero hi = hi
  extend test (suc k) hi = elim (test hi) [
    | true ↦ extend test k (d.mul hi (d.decimal 2 0))
    | false ↦ hi
  ]

  unfoldable pub decode_batch : ℕ → W → ℤ
  decode_batch prefill_tokens n = d.llround n +ℤ pos prefill_tokens

  module _ (m : ModelSpec) (hw : HwSpec W) (prefill_tokens : ℕ) where
    -- `f(n) = t_ffn - t_gpu_a`
    unfoldable pub decode_gap : W → W → W
    unfolding decode_batch t_ffn_us t_gpu_a_us
    decode_gap ctx n =
        let prefill_attn_work = d.llround (d.mul (d.of_int (pos prefill_tokens)) ctx) in
        let batch = decode_batch prefill_tokens n in
        d.sub (t_ffn_us batch m hw) (t_gpu_a_us batch prefill_attn_work m hw)

    unfoldable pub ndec_ffn_eq_gpua : W → W
    unfolding decode_gap bisect midpoint
    ndec_ffn_eq_gpua ctx =
        let start = d.of_int (pos 0) in
        let ends = bisect (λ n. d.lt (decode_gap ctx n) start) 200 start (d.decimal 1_000_000 0) in
        if d.lt start (decode_gap ctx start) then start else midpoint ends.0 ends.1

    unfoldable pub balance_residual : W → W
    unfolding ndec_ffn_eq_gpua decode_batch t_pim_us t_ffn_us
    balance_residual ctx =
        let n = ndec_ffn_eq_gpua ctx in
        let sum_kv = d.llround (d.mul n ctx) in
        d.sub (t_pim_us sum_kv hw) (t_ffn_us (decode_batch prefill_tokens n) m hw)

    abbrev pub is_negative : W → Bool
    is_negative ctx = d.lt (balance_residual ctx) (d.of_int (pos 0))

    abbrev pub like_at_lo : W → Bool
    like_at_lo x = same_sign (is_negative x) (is_negative (d.decimal 1000 0))

    -- The ends that the outer bisection leaves.
    unfoldable pub ctx_bracket : W × W
    unfolding bisect extend balance_residual
    ctx_bracket =
        bisect like_at_lo 200 (d.decimal 1000 0) (extend like_at_lo 24 (d.decimal 400_000 0))

    unfoldable pub derive_operating_point : DeriveOptions W → OperatingPoint W
    unfolding ctx_bracket midpoint ndec_ffn_eq_gpua t_ffn_us kv_bytes_per_token
        instance_a_weight_bytes
    derive_operating_point opt =
        let ctx = midpoint (ctx_bracket).0 (ctx_bracket).1 in
        let n_dec = pos_part (d.llround (ndec_ffn_eq_gpua ctx)) in
        let kv_target = pos_part (d.llround (d.mul (d.of_int (pos n_dec)) ctx)) in
        let pool = 2 * n_dec + opt.decode_surplus in
        let tokens =
          d.add (d.mul (d.of_int (pos pool)) ctx)
            (d.mul (d.of_int (pos opt.prefill_pool)) (d.mul ctx opt.prefill_avg_depth_frac)) in
        let kv_bytes = d.mul tokens (d.of_int (pos (kv_bytes_per_token m))) in
        let weight_bytes = d.of_int (pos (instance_a_weight_bytes m)) in
        let instance_a_tb = d.div (d.add kv_bytes weight_bytes) (d.decimal 1_000_000_000_000 0) in
        let density =
          d.mul (d.decimal 16 0) (d.div (d.of_int (pos opt.hbm_stack_height)) (d.decimal 16 0)) in
        let per_stack =
          d.div (d.mul (d.of_int (pos pim_channels_per_stack)) density) (d.decimal 8 0) in
        let stacks = hw.num_gpus_a * hbm4_stacks_per_gpu in
        let capacity = d.div (d.mul (d.of_int (pos stacks)) per_stack) (d.decimal 1000 0) in
        record {
          ctx_balance = ctx;
          decode_count_target = n_dec;
          kv_operating_target = kv_target;
          prefill_tokens = prefill_tokens;
          prefill_kv_work_target = pos_part (d.llround (d.mul (d.of_int (pos prefill_tokens)) ctx));
          ffn_batch = n_dec + prefill_tokens;
          balance_time_us = t_ffn_us (pos (n_dec + prefill_tokens)) m hw;
          decode_pool = pool;
          prefill_pool = opt.prefill_pool;
          age_cap = opt.age_cap;
          idle_band = opt.idle_band;
          node_max = 2 * n_dec + opt.node_max_surplus;
          node_min = 2 * n_dec;
          edge_band = opt.edge_band_tokens;
          node_footprint_cap = pos_part (
              d.llround
                (d.mul (d.mul (d.decimal 2 0) (d.of_int (pos kv_target))) opt.footprint_headroom));
          instance_a_tb = instance_a_tb;
          hbm_capacity_tb = capacity;
          hbm_fits = d.le instance_a_tb capacity;
        }
