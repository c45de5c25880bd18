-- ===== src/Steering/Decode.antt =====
-- `steer_decode_set` of puls-engine/core/steering.cpp. The loop `while (n < decode_count_target &&
-- S < kv_operating_target)` recurs on the picks left, `decode_count_target - n`.
use puls_rfc.Prelude.{
  ℕ, zero, suc, ◌+◌, ◌^◌, Bool, true, false, not, ◌&&◌, Option, none, some, List, [], ◌∷◌, pos,
  sub_ℕ, ltb, leb, set,
}
use puls_rfc.Double.{Double}
use puls_rfc.OperatingPoint.{OperatingPoint}
use puls_rfc.Scan.{scan}

pub record Decoder : Type 0 where
  pub kv_length : ℕ
  pub wait : ℕ

-- The pool beside its `used` marks.
unfoldable pub slots {ℓ} : {A : Type ℓ} → List Bool → List A → List (Bool × A)
slots (u ∷ us) (x ∷ xs) = (u, x) ∷ slots us xs
slots _ _ = []

-- The mark is `best_wait`, `none` for its start -1.
abbrev pub aged_test : ℕ → Option ℕ → Bool × Decoder → Bool
aged_test age_cap best_wait (u, x) =
    not u && (leb age_cap x.wait && elim best_wait [ none ↦ true | some w ↦ ltb w x.wait ])

abbrev pub wait_mark : Bool × Decoder → Option ℕ
wait_mark s = some s.1.wait

module _ {W : Type 0} ⦃d : Double W⦄ where
  -- `best_dist = 1e18`
  abbrev pub far : W
  far = d.of_int (pos (10 ^ 18))

  abbrev pub dist : W → ℕ → W
  dist ideal kv = d.fabs (d.sub (d.of_int (pos kv)) ideal)

  abbrev pub near_test : W → W → Bool × Decoder → Bool
  near_test ideal best_dist (u, x) = not u && d.lt (dist ideal x.kv_length) best_dist

  abbrev pub dist_mark : W → Bool × Decoder → W
  dist_mark ideal s = dist ideal s.1.kv_length

  module _ (op : OperatingPoint W) where
    -- `ideal = (kv_operating_target - S) / (decode_count_target - n)`
    unfoldable pub decode_ideal : ℕ → ℕ → W
    decode_ideal left sum =
        d.div (d.of_int (sub_ℕ op.kv_operating_target sum)) (d.of_int (pos left))

    -- One pass of the loop's body: the forced candidate, or else the nearest to the ideal.
    unfoldable pub choose : ℕ → ℕ → List Bool → List Decoder → Option (ℕ × (Bool × Decoder))
    unfolding scan slots decode_ideal
    choose left sum used pool =
        elim (scan (aged_test op.age_cap) wait_mark 0 none none (slots used pool)) [
          | some forced ↦ some forced
          | none ↦
              let ideal = decode_ideal left sum in
              scan (near_test ideal) (dist_mark ideal) 0 far none (slots used pool)
        ]

    unfoldable pub steer_loop : List Decoder → ℕ → ℕ → List Bool → List ℕ × List Bool
    unfolding choose
    steer_loop pool zero sum used = ([], used)
    steer_loop pool (suc left) sum used = elim (ltb sum op.kv_operating_target) [
      | false ↦ ([], used)
      | true ↦ elim (choose (suc left) sum used pool) [
        | none ↦ ([], used)
        | some (sel, (_, x)) ↦
            let rest = steer_loop pool left (sum + x.kv_length) (set used sel true) in
            (sel ∷ rest.0, rest.1)
      ]
    ]

    -- The selected indices, and the marks after the call.
    unfoldable pub steer_decode_set : List Decoder → List Bool → List ℕ × List Bool
    unfolding steer_loop
    steer_decode_set pool used = steer_loop pool op.decode_count_target 0 used
