-- ===== src/Examples/Steering.antt =====
-- `steer_decode_set` and `steer_prefill_chunks` on small pools.
use puls_rfc.Prelude.{
  ℕ, ◌+◌, ◌-◌, ◌/◌, pos, sub_ℕ, All-get, ◌≤◌, ◌≡◌, refl, ◌⊎◌, Bool, true, false, List, [], ◌∷◌,
  length, arith, replicate, sum_by,
}
use puls_rfc.Double.{whole_double, Whole-IsOrdered, Double}
use puls_rfc.Steering.{
  Assigned, choose_token, steer_decode_set, steer_prefill_chunks, mark_all, decode_ideal,
  prefill_ideal, dist, far,
}
use puls_rfc.Steering.Batch
use puls_rfc.Steering.Batch.{kv_sum, InRange, AllUsed}
use puls_rfc.Steering.Budget
use puls_rfc.Steering.Budget.{AreCovered, AreComplete}
use puls_rfc.Steering.Chunks
use puls_rfc.Steering.Chunks.{IsTokenChoice}
use puls_rfc.Steering.Run
use puls_rfc.Steering.Run.{Run, AreFresh}
use puls_rfc.Examples.Point.{point, decoders, prefill, prefills}

-- The decoder past the age cap is forced although it is the longest; the batch is then over target.
forced_first :
    steer_decode_set point decoders (replicate 5 false)
    ≡ (2 ∷ [], false ∷ false ∷ true ∷ false ∷ false ∷ [])
unfolding steer_decode_set
forced_first = refl

chunks_run : steer_prefill_chunks point prefills ≡ 1 ∷ 1 ∷ 2 ∷ []
unfolding steer_prefill_chunks
chunks_run = refl

abbrev picked : List ℕ
picked = 2 ∷ []

abbrev chunks : List ℕ
chunks = 1 ∷ 1 ∷ 2 ∷ []

abbrev unused : List Bool
unused = replicate 5 false

steer_decode_set-Run_example :
    Run point decoders 2 0 unused (2 ∷ [])
    × (false ∷ false ∷ true ∷ false ∷ false ∷ [] ≡ mark_all unused (2 ∷ []))
unfolding steer_decode_set
steer_decode_set-Run_example = Run.steer_decode_set-Run point decoders Whole-IsOrdered unused

steer_decode_set-disjoint_example : AreFresh unused (2 ∷ 3 ∷ 4 ∷ []) × (1 ≤ 2) × (2 ≤ 2)
unfolding steer_decode_set
steer_decode_set-disjoint_example =
    Batch.steer_decode_set-disjoint point decoders Whole-IsOrdered unused

steer_decode_set-kv_sum_example : kv_sum decoders (2 ∷ []) ≤ 200 + 300
unfolding steer_decode_set
steer_decode_set-kv_sum_example =
    Batch.steer_decode_set-kv_sum point decoders Whole-IsOrdered 300 unused (omega arith)

div-le : (a b : ℕ) → a / b ≤ a
div-le a b = grind arith

-- Whole numbers below 1000 lie far within 1e18 of each other's quotients.
whole_near :
    (n a b left : ℕ)
    → n ≤ 1000
    → a ≤ 1000
    → b ≤ 1000
    → Double.lt whole_double (dist (Double.div whole_double (sub_ℕ a b) (pos left)) n) far ≡ true
whole_near n a b left hn ha hb = ground (arith, div-le (a - b) left, div-le (b - a - 1 + 1) left)

decoders-InRange : InRange point decoders
unfolding decode_ideal
decoders-InRange left sum j y pos_left below at =
    whole_near y.kv_length 200 sum left
      (All-get (λ x. x.kv_length ≤ 1000) decoders j y (omega arith) at) (omega arith) (omega arith)

steer_decode_set-stop_example :
    (length picked ≡ 2)
    ⊎ (200 ≤ kv_sum decoders (2 ∷ []))
    ⊎ AllUsed point decoders (false ∷ false ∷ true ∷ false ∷ false ∷ [])
unfolding steer_decode_set
steer_decode_set-stop_example =
    Batch.steer_decode_set-stop point decoders Whole-IsOrdered unused decoders-InRange

pub prefills-InRange : Budget.DepthsInRange point 40
unfolding prefill_ideal
prefills-InRange left work n pos_left few small =
    whole_near n 40 work left (omega arith) (omega arith) (omega arith)

steer_prefill_chunks_lem_example :
    (length chunks ≡ 3)
    × AreCovered prefills (1 ∷ 1 ∷ 2 ∷ [])
    × ((sum_by (λ c. c) chunks ≡ 4)
        ⊎ (sum_by (λ c. c) chunks ≤ 4) × AreComplete prefills (1 ∷ 1 ∷ 2 ∷ []))
unfolding steer_prefill_chunks
steer_prefill_chunks_lem_example =
    Budget.steer_prefill_chunks_lem point Whole-IsOrdered 40 prefills-InRange prefills (omega arith)

abbrev rows : List Assigned
rows = (prefill 10 9 0, 0) ∷ (prefill 20 5 3, 0) ∷ []

abbrev forced_row : ℕ × Assigned
forced_row = (1, (prefill 20 5 3, 0))

choose_token-some_example :
    IsTokenChoice point Whole-IsOrdered (prefill_ideal point 4 0) rows forced_row
unfolding choose_token
choose_token-some_example = Chunks.choose_token-some point Whole-IsOrdered 4 0 rows forced_row refl
