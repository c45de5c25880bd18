-- ===== src/Steering/Run.antt =====
-- The whole of `steer_decode_set` (puls-engine/core/steering.cpp) against the specification of its
-- picks in Steering/Greedy.antt, and what follows for the batch.
use puls_rfc.Prelude.{
  ℕ, zero, suc, ◌+◌, ◌≤◌, ◌<◌, ◌≡◌, refl, ◌⊎◌, inl, inr, Bool, true, false, some, List, [], ◌∷◌,
  ltb, ltb→lt, ltb→le, get_elem?, set, Option-cases, Bool-cases,
}
use puls_rfc.Double.{Double, IsOrdered}
use puls_rfc.OperatingPoint.{OperatingPoint}
use puls_rfc.Steering.Age.{mark_all}
use puls_rfc.Steering.Decode.{Decoder, decode_ideal, choose, steer_loop, steer_decode_set}
use puls_rfc.Steering.Greedy.{IsChoice, IsExhausted, choose-some, choose-none}

-- The indices are free when they are selected: in range, unused, and all different.
abbrev pub AreFresh : List Bool → List ℕ → Type 0
AreFresh used [] = Unit {0}
AreFresh used (i ∷ is) = (get_elem? used i ≡ some false) × AreFresh (set used i true) is

module _ {W : Type 0} ⦃d : Double W⦄ (op : OperatingPoint W) (pool : List Decoder) where
  -- `Run left sum used sel`: with `left` picks to go and `sum` tokens selected, the loop selects
  -- `sel`. Each pick is made below the target and is a choice; the loop stops only when the
  -- picks are spent, the target is reached, or no candidate is left.
  abbrev pub Run : ℕ → ℕ → List Bool → List ℕ → Type 0
  Run left sum used [] =
      (left ≡ 0)
      ⊎ (op.kv_operating_target ≤ sum)
      ⊎ IsExhausted op used pool (decode_ideal op left sum)
  Run zero sum used (i ∷ is) = ⊥
  Run (suc left) sum used (i ∷ is) =
      (x : Decoder) × (sum < op.kv_operating_target)
      × IsChoice op used pool (decode_ideal op (suc left) sum) i x
      × Run left (sum + x.kv_length) (set used i true) is

  module _ (laws : IsOrdered W) where
    abbrev Result : ℕ → ℕ → List Bool → List ℕ × List Bool → Type 0
    Result left sum used r = Run left sum used r.0 × (r.1 ≡ mark_all used r.0)

    steer_loop-Run :
        (left sum : ℕ) (used : List Bool) → Result left sum used (steer_loop op pool left sum used)
    unfolding steer_loop mark_all
    steer_loop-Run zero sum used = (inl refl, refl)
    steer_loop-Run (suc left) sum used = elim (Bool-cases (ltb sum op.kv_operating_target)) [
      | inl below ↦ elim (Option-cases (choose op (suc left) sum used pool)) [
        | inl e ↦
            rw (below, e, steer_loop)
              (inr (inr (choose-none op used pool laws (suc left) sum e)), refl)
        | inr (p, e) ↦
            let (run, marks) = steer_loop-Run left (sum + p.1.1.kv_length) (set used p.0 true) in
            rw (below, e, steer_loop)
              (
                (p.1.1, ltb→lt _ _ below, choose-some op used pool laws (suc left) sum p e, run),
                marks,
              )
      ]
      | inr above ↦ rw (above, steer_loop) (inr (inl (ltb→le _ _ above)), refl)
    ]

    -- `steer_decode_set` is a run of the greedy rule from nothing: each pick is the longest waiting
    -- decoder past the age cap or else a nearest one to the ideal, until the batch is full, reaches the
    -- KV target or has no candidate. It marks exactly what it selects.
    pub steer_decode_set-Run :
        (used : List Bool)
        → let (selected, used') = steer_decode_set op pool used in
          Run op.decode_count_target 0 used selected × (used' ≡ mark_all used selected)
    unfolding steer_decode_set
    steer_decode_set-Run used = steer_loop-Run op.decode_count_target 0 used
