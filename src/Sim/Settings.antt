-- ===== src/Sim/Settings.antt =====
-- The deployment and the settings that the drivers share (puls-engine/sim/harness.h).
use puls_rfc.Prelude.{ℕ}
use puls_rfc.Double.{Double}
use puls_rfc.OperatingPoint.{ModelSpec, HwSpec, default_options}
use puls_rfc.Derive.{derive_operating_point}
use puls_rfc.Sim.Harness.{Deployment}
use puls_rfc.Sim.Workload.{MultiTurnConfig}

pub record SimConfig (W : Type 0) : Type 0 where
  pub nodes : ℕ
  pub iters : ℕ
  pub warm : ℕ
  pub seed : ℕ
  pub seed_backlog : ℕ
  pub eligibility_threshold : ℕ
  pub evict_age : ℕ
  pub gone_age : ℕ
  pub global_age_cap : ℕ
  pub offload_bw_bytes_per_round : W
  pub contention_beta : W
  pub slo_ttft_us : W
  pub slo_tbt_mult : W
  pub mt : MultiTurnConfig W

module _ {W : Type 0} ⦃d : Double W⦄ where
  unfoldable pub make_deployment : Deployment W
  unfolding default_options
  make_deployment =
      let m : ModelSpec = record {
        num_layers = 80;
        hidden = 8192;
        num_heads = 64;
        num_kv_heads = 8;
        head_dim = 128;
        ffn_intermediate = 28672;
        weight_bytes_per_elem = 2;
      } in
      let hw : HwSpec W = record {
        gpu_peak_tflops = d.decimal 2200 0;
        gpu_mfu = d.decimal 6 1;
        num_gpus_a = 8;
        num_gpus_b = 8;
      } in
      record { model = m; hw = hw; op = derive_operating_point m hw 128 default_options }

  -- The default member initialisers of `SimConfig`.
  abbrev pub default_config : SimConfig W
  default_config = record {
    nodes = 64;
    iters = 4000;
    warm = 500;
    seed = 7;
    seed_backlog = 300;
    eligibility_threshold = 16000;
    evict_age = 200;
    gone_age = 3000;
    global_age_cap = 2000;
    offload_bw_bytes_per_round = d.decimal 100_000_000 0;
    contention_beta = d.decimal 5 1;
    slo_ttft_us = d.decimal 5_000_000 0;
    slo_tbt_mult = d.decimal 130 2;
    mt = record {
      p_return_short = d.decimal 35 2;
      p_return_mid = d.decimal 60 2;
      p_return_long = d.decimal 75 2;
      dtot_lo = 256;
      dtot_hi = 4096;
      new_msg_lo = 500;
      new_msg_hi = 8000;
      think_gap_lo = 2;
      think_gap_hi = 40;
    };
  }
