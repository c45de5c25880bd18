-- ===== src/Sim/Harness.antt =====
-- The time model and the capacities of puls-engine/sim/harness.h.
use puls_rfc.Prelude.{ℕ, ◌+◌, List, [], ◌∷◌, ℤ, pos, ltb, sub_ℕ, if◌then◌else◌}
use puls_rfc.Double.{Double}
use puls_rfc.OperatingPoint.{ModelSpec, HwSpec, OperatingPoint, kv_bytes_per_token}
use puls_rfc.Optime.{t_pim_us, t_ffn_us, t_gpu_a_us}
use puls_rfc.Cluster.{gate}

pub record Deployment (W : Type 0) : Type 0 where
  pub model : ModelSpec
  pub hw : HwSpec W
  pub op : OperatingPoint W

pub record OpTimes (W : Type 0) : Type 0 where
  pub t_pim : W
  pub t_gpu_a : W
  pub t_ffn : W

-- `for (int x : kept) if (x > mx) mx = x;`
unfoldable pub largest : ℕ → List ℕ → ℕ
largest mx [] = mx
largest mx (x ∷ xs) = largest (if ltb mx x then x else mx) xs

module _ {W : Type 0} ⦃d : Double W⦄ where
  -- `std::max(a, b)`
  abbrev pub max : W → W → W
  max a b = if d.lt a b then b else a

  unfoldable pub round_us : Deployment W → W
  round_us p = d.mul p.op.balance_time_us (d.of_int (pos p.model.num_layers))

  unfoldable pub prefill_us : Deployment W → ℤ → W
  unfolding round_us
  prefill_us p len = d.div (d.mul (round_us p) (d.of_int len)) (d.of_int (pos p.op.prefill_tokens))

  unfoldable pub round_optimes : ℕ → ℕ → Deployment W → OpTimes W
  unfolding t_pim_us t_gpu_a_us t_ffn_us
  round_optimes decode_count sum_decode_kv p =
      let batch_total = pos (decode_count + p.op.prefill_tokens) in
      record {
        t_pim = t_pim_us (pos sum_decode_kv) p.hw;
        t_gpu_a = t_gpu_a_us batch_total (pos p.op.prefill_kv_work_target) p.model p.hw;
        t_ffn = t_ffn_us batch_total p.model p.hw;
      }

  unfoldable pub instance_a_latency : OpTimes W → W → W
  instance_a_latency t beta =
      let exposed = d.sub t.t_pim t.t_gpu_a in
      d.add (max t.t_pim t.t_gpu_a) (d.mul beta (max (d.of_int (pos 0)) exposed))

  -- `big` is what the sampler draws.
  unfoldable pub edge_cutoff : OperatingPoint W → List ℕ → ℤ
  unfolding gate largest
  edge_cutoff op big = elim (gate op big).kept [
    | [] ↦ d.trunc op.ctx_balance
    | x ∷ xs ↦ pos (largest 0 (x ∷ xs))
  ]

  unfoldable pub node_cache_capacity_bytes : OperatingPoint W → ℤ
  node_cache_capacity_bytes op =
      let zero_tb = d.of_int (pos 0) in
      let spare = d.sub op.hbm_capacity_tb op.instance_a_tb in
      d.trunc
        (d.mul (if d.lt spare zero_tb then zero_tb else spare) (d.decimal 1_000_000_000_000 0))

  unfoldable pub surplus_kv_bytes : Deployment W → ℤ
  unfolding kv_bytes_per_token
  surplus_kv_bytes p =
      let surplus = sub_ℕ p.op.decode_pool p.op.node_min in
      d.trunc (
        d.mul (d.mul (d.of_int surplus) p.op.ctx_balance)
          (d.of_int (pos (kv_bytes_per_token p.model))))
