-- ===== src/Analysis/Efficiency.antt =====
-- `compute` of puls-engine/analysis/efficiency.cpp: how well the three resources balance at a derived
-- operating point.
use puls_rfc.Prelude.{ℕ, Bool, pos, if◌then◌else◌}
use puls_rfc.Double.{Double}
use puls_rfc.OperatingPoint.{ModelSpec, HwSpec, DeriveOptions}
use puls_rfc.Optime.{t_pim_us, t_ffn_us, t_gpu_a_us}
use puls_rfc.Derive.{derive_operating_point}
use puls_rfc.Sim.Harness.{max}

pub record EffMetrics (W : Type 0) : Type 0 where
  pub t_pim : W
  pub t_gpu_a : W
  pub t_ffn : W
  pub t_a : W
  pub t_b : W
  pub pim_hidden : Bool
  pub pim_margin : W
  pub pipeline_eff : W
  pub idle_fraction : W
  pub balance_spread : W

module _ {W : Type 0} ⦃d : Double W⦄ where
  -- `std::min(a, b)`
  abbrev pub min : W → W → W
  min a b = if d.lt b a then b else a

  -- `x > 0.0 ? n / x : 0.0`
  abbrev pub over : W → W → W
  over n x = let zero_ = d.of_int (pos 0) in if d.lt zero_ x then d.div n x else zero_

  unfoldable pub compute : ModelSpec → HwSpec W → ℕ → DeriveOptions W → EffMetrics W
  unfolding t_ffn_us t_gpu_a_us t_pim_us
  compute m hw prefill opt =
      let op = derive_operating_point m hw prefill opt in
      let ffn = t_ffn_us (pos op.ffn_batch) m hw in
      let gpu_a = t_gpu_a_us (pos op.ffn_batch) (pos op.prefill_kv_work_target) m hw in
      let pim = t_pim_us (pos op.kv_operating_target) hw in
      let busier = max gpu_a ffn in
      let largest = max (max pim ffn) gpu_a in
      let smallest = min (min pim ffn) gpu_a in
      record {
        t_pim = pim;
        t_gpu_a = gpu_a;
        t_ffn = ffn;
        t_a = gpu_a;
        t_b = ffn;
        pim_hidden = d.le pim gpu_a;
        pim_margin = over (d.sub gpu_a pim) gpu_a;
        pipeline_eff = d.div busier (d.add gpu_a ffn);
        idle_fraction = over (d.fabs (d.sub gpu_a ffn)) busier;
        balance_spread = over (d.sub largest smallest) largest;
      }
