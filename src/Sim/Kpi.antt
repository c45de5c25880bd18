-- ===== src/Sim/Kpi.antt =====
-- `Kpi` of puls-engine/sim/kpi.h. `print` is printing.
use puls_rfc.Prelude.{
  pos_part, get_or, ltb, ℕ, ◌+◌, ◌≤◌, ◌≡◌, refl, Bool, ◌&&◌, List, [], ◌∷◌, ◌++◌, pos, arith,
  length, if◌then◌else◌, length-append,
}
use puls_rfc.Double.{Double}
use puls_rfc.Sim.Metrics.{sort}
use puls_rfc.Sim.Harness.{Deployment, OpTimes, max, round_optimes, instance_a_latency}

pub record Slo (W : Type 0) : Type 0 where
  pub t_ttft_us : W
  pub t_tbt_us : W

pub record Kpi (W : Type 0) : Type 0 where
  pub tbt : List W
  pub ttft : List W
  pub pim_win2 : ℕ
  pub gpua_win2 : ℕ
  pub pim_win3 : ℕ
  pub gpua_win3 : ℕ
  pub ffn_win3 : ℕ
  pub mb_total : ℕ
  pub exposed : ℕ
  pub exposure_us : W
  pub tokens_total : ℕ
  pub tokens_tbt_met : ℕ
  pub tokens_slo_met : ℕ
  pub reqs_total : ℕ
  pub reqs_ttft_met : ℕ
  pub sim_us : W

-- `if (c) ++n`
abbrev pub bump : Bool → ℕ → ℕ
bump c n = if c then n + 1 else n

module _ {W : Type 0} ⦃d : Double W⦄ where
  abbrev pub no_kpi : Kpi W
  no_kpi =
      let none_yet = d.of_int (pos 0) in
      record {
        tbt = [];
        ttft = [];
        pim_win2 = 0;
        gpua_win2 = 0;
        pim_win3 = 0;
        gpua_win3 = 0;
        ffn_win3 = 0;
        mb_total = 0;
        exposed = 0;
        exposure_us = none_yet;
        tokens_total = 0;
        tokens_tbt_met = 0;
        tokens_slo_met = 0;
        reqs_total = 0;
        reqs_ttft_met = 0;
        sim_us = none_yet;
      }

  abbrev pub pim_first : OpTimes W → Bool
  pim_first t = d.le t.t_pim t.t_gpu_a && d.le t.t_pim t.t_ffn

  abbrev pub gpua_first : OpTimes W → Bool
  gpua_first t = d.le t.t_gpu_a t.t_pim && d.le t.t_gpu_a t.t_ffn

  unfoldable pub record_mubatch : ℕ → ℕ → ℕ → Deployment W → Slo W → W → Kpi W → Kpi W
  unfolding round_optimes instance_a_latency
  record_mubatch decode_count sum_decode_kv ttft_met_count p slo beta k =
      let t = round_optimes decode_count sum_decode_kv p in
      let layers = d.of_int (pos p.model.num_layers) in
      let bt = d.mul (max (instance_a_latency t beta) t.t_ffn) layers in
      let exposure = d.sub t.t_pim t.t_gpu_a in
      let is_exposed = d.lt (d.of_int (pos 0)) exposure in
      let win2 = d.le t.t_pim t.t_gpu_a in
      let met = d.le bt slo.t_tbt_us in
      record k {
        tbt = k.tbt ++ bt ∷ [];
        mb_total = k.mb_total + 1;
        exposed = bump is_exposed k.exposed;
        exposure_us =
            if is_exposed then d.add k.exposure_us (d.mul exposure layers) else k.exposure_us;
        pim_win2 = if win2 then k.pim_win2 + 1 else k.pim_win2;
        gpua_win2 = if win2 then k.gpua_win2 else k.gpua_win2 + 1;
        pim_win3 = bump (pim_first t) k.pim_win3;
        gpua_win3 = if pim_first t then k.gpua_win3 else bump (gpua_first t) k.gpua_win3;
        ffn_win3 =
            if pim_first t
            then k.ffn_win3
            else (if gpua_first t then k.ffn_win3 else k.ffn_win3 + 1);
        tokens_total = k.tokens_total + decode_count;
        tokens_tbt_met = if met then k.tokens_tbt_met + decode_count else k.tokens_tbt_met;
        tokens_slo_met = if met then k.tokens_slo_met + ttft_met_count else k.tokens_slo_met;
      }

  -- Whether the request met its target, and the record of it.
  unfoldable pub record_ttft : W → Slo W → Kpi W → Bool × Kpi W
  record_ttft ttft_us slo k =
      let met = d.le ttft_us slo.t_ttft_us in
      (
        met,
        record k {
          ttft = k.ttft ++ ttft_us ∷ [];
          reqs_total = k.reqs_total + 1;
          reqs_ttft_met = bump met k.reqs_ttft_met;
        },
      )

  unfoldable pub total : W → List W → W
  total s [] = s
  total s (x ∷ xs) = total (d.add s x) xs

  unfoldable pub mean : List W → W
  unfolding total
  mean [] = d.of_int (pos 0)
  mean (x ∷ xs) = d.div (total (d.of_int (pos 0)) (x ∷ xs)) (d.of_int (pos (length (x ∷ xs))))

  unfoldable pub p99 : List W → W
  unfolding sort
  p99 [] = d.of_int (pos 0)
  p99 (x ∷ xs) =
      let last = length xs in
      let k = pos_part (d.llround (d.mul (d.decimal 99 2) (d.of_int (pos last)))) in
      get_or (sort (x ∷ xs)) (if ltb k last then k else last) x

-- Every micro-batch has one winner of two and one of three and one sample of its time, and goodput is
-- part of throughput.
pub record IsTallied {W : Type 0} (k : Kpi W) : Type 0 where
  pub two : k.pim_win2 + k.gpua_win2 ≡ k.mb_total
  pub three : k.pim_win3 + k.gpua_win3 + k.ffn_win3 ≡ k.mb_total
  pub timed : length k.tbt ≡ k.mb_total
  pub bared : k.exposed ≤ k.mb_total
  pub good : k.tokens_slo_met ≤ k.tokens_tbt_met
  pub part : k.tokens_tbt_met ≤ k.tokens_total
  pub served : length k.ttft ≡ k.reqs_total
  pub kept : k.reqs_ttft_met ≤ k.reqs_total

module _ {W : Type 0} ⦃d : Double W⦄ where
  -- Recording a micro-batch in which no more decoders met their target than it has keeps the tally:
  -- one winner of two and one of three for each micro-batch, one time sample, and
  -- SLO goodput within TBT goodput within the tokens generated.
  pub record_mubatch-IsTallied :
      (decode_count sum_decode_kv ttft_met_count : ℕ) (p : Deployment W) (slo : Slo W) (beta : W)
      (k : Kpi W)
      → ttft_met_count ≤ decode_count
      → IsTallied k
      → IsTallied (record_mubatch decode_count sum_decode_kv ttft_met_count p slo beta k)
  unfolding record_mubatch
  record_mubatch-IsTallied decode_count sum_decode_kv ttft_met_count p slo beta k few v = record {
    two = ground (arith, v.two);
    three = ground (arith, v.three);
    timed = omega (arith, v.timed, length-append k.tbt (_ ∷ []));
    bared = ground (arith, v.bared);
    good = ground (arith, v.good);
    part = ground (arith, v.part);
    served = v.served;
    kept = v.kept;
  }

  -- Recording a request's time to its first token keeps the tally, and the answer is whether the time
  -- is within the target.
  pub record_ttft-IsTallied :
      (ttft_us : W) (slo : Slo W) (k : Kpi W)
      → IsTallied k
      → IsTallied (record_ttft ttft_us slo k).1
        × ((record_ttft ttft_us slo k).0 ≡ d.le ttft_us slo.t_ttft_us)
  unfolding record_ttft
  record_ttft-IsTallied ttft_us slo k v = (
    record {
      two = v.two;
      three = v.three;
      timed = v.timed;
      bared = v.bared;
      good = v.good;
      part = v.part;
      served = omega (arith, v.served, length-append k.ttft (ttft_us ∷ []));
      kept = ground (arith, v.kept);
    },
    refl,
  )
