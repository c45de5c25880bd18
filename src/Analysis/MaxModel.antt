-- ===== src/Analysis/MaxModel.antt =====
-- `approx_params_B` and `sweep_boundary` of puls-engine/analysis/max_model.cpp: the largest dense model
-- of a family that fits the memory.
use puls_rfc.Prelude.{
  ℕ, zero, suc, ◌+◌, ◌*◌, ◌/◌, Bool, true, false, Option, none, some, pos, pos_part, ltb,
}
use puls_rfc.Double.{Double}
use puls_rfc.OperatingPoint.{ModelSpec, HwSpec, OperatingPoint, default_options}
use puls_rfc.Derive.{derive_operating_point}

-- `mode` 0 and 1: which of the two grows with the step.
pub data Axis : Type 0 where
  grow_layers : Axis
  grow_hidden : Axis

abbrev pub layers_at : Axis → ℕ → ℕ → ℕ
layers_at grow_layers layers0 step = layers0 + step
layers_at grow_hidden layers0 step = layers0

abbrev pub hidden_at : Axis → ℕ → ℕ → ℕ
hidden_at grow_layers hidden0 step = hidden0
hidden_at grow_hidden hidden0 step = hidden0 + 128 * step

-- `continue`: no head at all.
abbrev pub is_skipped : Axis → ℕ → ℕ → Bool
is_skipped grow_layers hidden0 step = false
is_skipped grow_hidden hidden0 step = ltb (hidden_at grow_hidden hidden0 step / 128) 1

-- What is kept of the last model that fits.
pub record Boundary (W : Type 0) : Type 0 where
  pub last_layers : ℕ
  pub last_hidden : ℕ
  pub last_a_tb : W
  pub last_ctx : W
  pub last_cap : W
  pub last_ndec : ℕ

module _ {W : Type 0} ⦃d : Double W⦄ where
  -- In units of 10^9: `12.0 * layers * hidden * hidden / 1e9`.
  unfoldable pub approx_params : ℕ → ℕ → W
  approx_params layers hidden =
      let h = d.of_int (pos hidden) in
      d.div (d.mul (d.mul (d.mul (d.decimal 12 0) (d.of_int (pos layers))) h) h)
        (d.decimal 1_000_000_000 0)

  -- A model of the Llama proportions: the factor of `ffn` is 3.5.
  unfoldable pub make : W → ℕ → ℕ → ModelSpec
  make factor layers hidden = record {
    num_layers = layers;
    hidden = hidden;
    num_heads = hidden / 128;
    num_kv_heads = 8;
    head_dim = 128;
    ffn_intermediate = pos_part (d.trunc (d.mul factor (d.of_int (pos hidden))));
    weight_bytes_per_elem = 2;
  }

  module _ (hw : HwSpec W) (prefill stack_height : ℕ) (axis : Axis) (layers0 hidden0 : ℕ) where
    unfoldable pub point_at : ℕ → OperatingPoint W
    unfolding make default_options
    point_at step =
        derive_operating_point
          (make (d.decimal 35 1) (layers_at axis layers0 step) (hidden_at axis hidden0 step)) hw
          prefill (record default_options { hbm_stack_height = stack_height })

    abbrev pub boundary_at : ℕ → Boundary W
    boundary_at step =
        let op = point_at step in
        record {
          last_layers = layers_at axis layers0 step;
          last_hidden = hidden_at axis hidden0 step;
          last_a_tb = op.instance_a_tb;
          last_ctx = op.ctx_balance;
          last_cap = op.hbm_capacity_tb;
          last_ndec = op.decode_count_target;
        }

    -- The steps from `step` on, `left` of them; `none` is `last_L < 0`.
    unfoldable pub sweep : ℕ → ℕ → Option (Boundary W) → Option (Boundary W)
    unfolding point_at
    sweep zero step last = last
    sweep (suc left) step last = elim (is_skipped axis hidden0 step) [
      | true ↦ sweep left (step + 1) last
      | false ↦ elim (point_at step).hbm_fits [
        | false ↦ last
        | true ↦ sweep left (step + 1) (some (boundary_at step))
      ]
    ]

    unfoldable pub sweep_boundary : Option (Boundary W)
    unfolding sweep
    sweep_boundary = sweep 4000 0 none
