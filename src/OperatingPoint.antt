-- ===== src/OperatingPoint.antt =====
-- puls-engine/core/spec.h and operating_point.h: the fixed substrate, the model and hardware
-- specifications, the operating point, and the options of its derivation. Counts and lengths are
-- naturals; `W` stands for `double`.
use puls_rfc.Prelude.{ℕ, ◌+◌, ◌*◌, Bool, pos}
use puls_rfc.Double.{Double}

abbrev pub pim_tile_rows : ℕ
pim_tile_rows = 32

abbrev pub pim_channels_per_stack : ℕ
pim_channels_per_stack = 32

abbrev pub hbm4_stacks_per_gpu : ℕ
hbm4_stacks_per_gpu = 8

abbrev pub kv_bytes_per_elem : ℕ
kv_bytes_per_elem = 1

abbrev pub kv_kv_factor : ℕ
kv_kv_factor = 2

pub record ModelSpec : Type 0 where
  pub num_layers : ℕ
  pub hidden : ℕ
  pub num_heads : ℕ
  pub num_kv_heads : ℕ
  pub head_dim : ℕ
  pub ffn_intermediate : ℕ
  pub weight_bytes_per_elem : ℕ

unfoldable pub kv_bytes_per_token : ModelSpec → ℕ
kv_bytes_per_token m = kv_kv_factor * m.num_kv_heads * m.head_dim * kv_bytes_per_elem * m.num_layers

unfoldable pub instance_a_weight_bytes : ModelSpec → ℕ
instance_a_weight_bytes m =
    let qkv = m.hidden * (m.num_heads * m.head_dim + 2 * m.num_kv_heads * m.head_dim) in
    let oproj = m.hidden * m.hidden in (qkv + oproj) * m.num_layers * m.weight_bytes_per_elem

pub record HwSpec (W : Type 0) : Type 0 where
  pub gpu_peak_tflops : W
  pub gpu_mfu : W
  pub num_gpus_a : ℕ
  pub num_gpus_b : ℕ

unfoldable pub k_aggregate : {W : Type 0} → HwSpec W → ℕ
k_aggregate hw = hw.num_gpus_a * hbm4_stacks_per_gpu * pim_channels_per_stack

pub record OperatingPoint (W : Type 0) : Type 0 where
  pub ctx_balance : W
  pub decode_count_target : ℕ
  pub kv_operating_target : ℕ
  pub prefill_tokens : ℕ
  pub prefill_kv_work_target : ℕ
  pub ffn_batch : ℕ
  pub balance_time_us : W
  pub decode_pool : ℕ
  pub prefill_pool : ℕ
  pub age_cap : ℕ
  pub idle_band : W
  pub node_max : ℕ
  pub node_min : ℕ
  pub edge_band : W
  pub node_footprint_cap : ℕ
  pub instance_a_tb : W
  pub hbm_capacity_tb : W
  pub hbm_fits : Bool

pub record DeriveOptions (W : Type 0) : Type 0 where
  pub decode_surplus : ℕ
  pub prefill_pool : ℕ
  pub age_cap : ℕ
  pub idle_band : W
  pub prefill_avg_depth_frac : W
  pub node_max_surplus : ℕ
  pub edge_band_tokens : W
  pub footprint_headroom : W
  pub hbm_stack_height : ℕ

module _ {W : Type 0} ⦃d : Double W⦄ where
  -- `peak_flops` on `n` GPUs
  unfoldable pub peak_flops : HwSpec W → ℕ → W
  peak_flops hw n =
      d.mul (d.mul (d.mul hw.gpu_peak_tflops (d.decimal 1_000_000_000_000 0)) hw.gpu_mfu)
        (d.of_int (pos n))

  -- The default member initialisers of `DeriveOptions`.
  unfoldable pub default_options : DeriveOptions W
  default_options = record {
    decode_surplus = 25;
    prefill_pool = 80;
    age_cap = 5;
    idle_band = d.decimal 10 2;
    prefill_avg_depth_frac = d.decimal 56 2;
    node_max_surplus = 10;
    edge_band_tokens = d.decimal 1000 0;
    footprint_headroom = d.decimal 122 2;
    hbm_stack_height = 16;
  }
