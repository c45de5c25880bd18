-- ===== src/Optime.antt =====
-- puls-engine/core/optime.cpp: the time of one batch on each of the three resources, in
-- microseconds. Batch sizes and KV sums are signed, as in the source.
use puls_rfc.Prelude.{ℕ, ◌+◌, ◌-◌, ◌*◌, ◌/◌, ℤ, pos, negsuc, ltb, if◌then◌else◌}
use puls_rfc.Double.{Double}
use puls_rfc.OperatingPoint.{ModelSpec, HwSpec, k_aggregate, peak_flops, pim_tile_rows}

module _ {W : Type 0} ⦃d : Double W⦄ where
  abbrev pub pim_tile_time_fp8_ns : W
  pim_tile_time_fp8_ns = d.decimal 267 0

  abbrev pub pim_broadcast_ns : W
  pim_broadcast_ns = d.decimal 5 1

  -- `tiles = ceil(sum / (k_channels * PIM_TILE_ROWS))`
  unfoldable pub pim_tiles : ℕ → HwSpec W → ℕ
  unfolding k_aggregate
  pim_tiles sum_decode_kv_tokens hw =
      let denom = k_aggregate hw * pim_tile_rows in (sum_decode_kv_tokens + denom - 1) / denom

  unfoldable pub t_pim_us : ℤ → HwSpec W → W
  unfolding pim_tiles
  t_pim_us (negsuc n) hw = d.of_int (pos 0)
  t_pim_us (pos n) hw =
      if ltb 0 n
      then d.div
          (d.add (d.mul (d.of_int (pos (pim_tiles n hw))) pim_tile_time_fp8_ns) pim_broadcast_ns)
          (d.decimal 1000 0)
      else d.of_int (pos 0)

  unfoldable pub t_ffn_us : ℤ → ModelSpec → HwSpec W → W
  unfolding peak_flops
  t_ffn_us batch_total m hw =
      let flops =
        d.mul (d.mul (d.mul (d.decimal 6 0) (d.of_int batch_total)) (d.of_int (pos m.hidden)))
          (d.of_int (pos m.ffn_intermediate)) in
      d.mul (d.div flops (peak_flops hw hw.num_gpus_b)) (d.decimal 1_000_000 0)

  unfoldable pub t_gpu_a_us : ℤ → ℤ → ModelSpec → HwSpec W → W
  unfolding peak_flops
  t_gpu_a_us batch_total prefill_attn_work_tokens m hw =
      let two = d.decimal 2 0 in
      let hidden = d.of_int (pos m.hidden) in
      let kv_heads =
        d.mul (d.mul two (d.of_int (pos m.num_kv_heads))) (d.of_int (pos m.head_dim)) in
      let qkv = d.mul (d.mul (d.mul two (d.of_int batch_total)) hidden) (d.add hidden kv_heads) in
      let o_proj = d.mul (d.mul (d.mul two (d.of_int batch_total)) hidden) hidden in
      let prefill_attn = d.mul (d.mul two (d.of_int prefill_attn_work_tokens)) hidden in
      d.mul (d.div (d.add (d.add qkv o_proj) prefill_attn) (peak_flops hw hw.num_gpus_a))
        (d.decimal 1_000_000 0)
