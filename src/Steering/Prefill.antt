-- ===== src/Steering/Prefill.antt =====
-- `steer_prefill_chunks` of puls-engine/core/steering.cpp. The loop `while (T < budget)` recurs on
-- the tokens left, `prefill_tokens - T`. A request stands beside its chunk.
use puls_rfc.Prelude.{
  ℕ, zero, suc, ◌+◌, Bool, true, not, ◌&&◌, Option, none, some, List, map, pos, sub_ℕ, ltb, leb,
  ◌==◌, set,
}
use puls_rfc.Double.{Double}
use puls_rfc.OperatingPoint.{OperatingPoint}
use puls_rfc.Scan.{scan}
use puls_rfc.Steering.Decode.{far, dist}

pub record PrefillReq : Type 0 where
  pub prompt : ℕ
  pub processed : ℕ
  pub wait : ℕ

-- A request and the chunk assigned to it so far.
abbrev pub Assigned : Type 0
Assigned = PrefillReq × ℕ

abbrev pub spread_test : ℕ → Option ℕ → Assigned → Bool
spread_test age_cap best_wait (x, chunk) =
    leb age_cap x.wait
    && ((chunk == 0)
        && (ltb (x.processed + chunk) x.prompt
            && elim best_wait [ none ↦ true | some w ↦ ltb w x.wait ]))

abbrev pub prefill_wait_mark : Assigned → Option ℕ
prefill_wait_mark s = some s.0.wait

module _ {W : Type 0} ⦃d : Double W⦄ where
  abbrev pub depth_test : W → W → Assigned → Bool
  depth_test ideal best_dist (x, chunk) =
      not (leb x.prompt (x.processed + chunk))
      && d.lt (dist ideal (x.processed + chunk + 1)) best_dist

  abbrev pub depth_mark : W → Assigned → W
  depth_mark ideal s = dist ideal (s.0.processed + s.1 + 1)

  module _ (op : OperatingPoint W) where
    -- `ideal = (prefill_kv_work_target - W) / (budget - T)`
    unfoldable pub prefill_ideal : ℕ → ℕ → W
    prefill_ideal left work =
        d.div (d.of_int (sub_ℕ op.prefill_kv_work_target work)) (d.of_int (pos left))

    unfoldable pub choose_token : ℕ → ℕ → List Assigned → Option (ℕ × Assigned)
    unfolding scan prefill_ideal
    choose_token left work rows =
        elim (scan (spread_test op.age_cap) prefill_wait_mark 0 none none rows) [
          | some forced ↦ some forced
          | none ↦
              let ideal = prefill_ideal left work in
              scan (depth_test ideal) (depth_mark ideal) 0 far none rows
        ]

    unfoldable pub prefill_loop : ℕ → ℕ → List Assigned → List Assigned
    unfolding choose_token
    prefill_loop zero work rows = rows
    prefill_loop (suc left) work rows = elim (choose_token (suc left) work rows) [
      | none ↦ rows
      | some (sel, (x, chunk)) ↦
          prefill_loop left (work + (x.processed + (chunk + 1))) (set rows sel (x, chunk + 1))
    ]

    unfoldable pub steer_prefill_chunks : List PrefillReq → List ℕ
    unfolding prefill_loop
    steer_prefill_chunks pool =
        map (λ s. s.1) (prefill_loop op.prefill_tokens 0 (map (λ x. (x, 0)) pool))
