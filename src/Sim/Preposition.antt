-- ===== src/Sim/Preposition.antt =====
-- `Preposition` of puls-engine/scheduler/preposition.cpp, and the loop by which the drivers fill the
-- empty slots of a batch with it (puls-engine/sim/prepo.cpp). `slots_left` may be negative.
-- `admit_ttft` is what a driver books for an admitted request (Sim/Ttft), over a state `B`.
use puls_rfc.Prelude.{
  ℕ, zero, suc, Bool, true, false, not, none, some, List, [], ◌∷◌, ◌++◌, ℤ, pos, sub_ℕ, ◌-ℤ◌, ltb_ℤ,
  length,
}
use puls_rfc.Double.{Double}
use puls_rfc.OperatingPoint.{OperatingPoint}
use puls_rfc.Queue.{Request, GlobalQueue, pull_slot}

pub record Preposition (W : Type 0) : Type 0 where
  pub sum : W
  pub slots_left : ℤ
  pub kv_target : ℕ

-- The request as a decoder that has generated nothing yet.
pub record BatchDecoder : Type 0 where
  pub id : ℕ
  pub prompt : ℕ
  pub max_tokens : ℕ
  pub dec : ℕ
  pub turn : ℕ
  pub cached_prefix : ℕ
  pub arrival : ℕ
  pub met_ttft : Bool

unfoldable pub to_batch : Request → Bool → BatchDecoder
to_batch r met = record {
  id = r.id;
  prompt = r.prompt;
  max_tokens = r.max_tokens;
  dec = 0;
  turn = r.turn;
  cached_prefix = r.cached_prefix;
  arrival = r.arrival;
  met_ttft = met;
}

module _ {W : Type 0} ⦃d : Double W⦄ where
  unfoldable pub start : W → ℕ → OperatingPoint W → Preposition W
  start survivors_sum_kv survivors_count op = record {
    sum = survivors_sum_kv;
    slots_left = sub_ℕ op.decode_count_target survivors_count;
    kv_target = op.kv_operating_target;
  }

  -- `slots_left_ <= 0`
  abbrev pub done : Preposition W → Bool
  done pp = not (ltb_ℤ (pos 0) pp.slots_left)

  unfoldable pub next_ideal : Preposition W → W
  next_ideal pp = d.div (d.sub (d.of_int (pos pp.kv_target)) pp.sum) (d.of_int pp.slots_left)

  unfoldable pub place : ℕ → Preposition W → Preposition W
  place placed_live_kv pp = record pp {
    sum = d.add pp.sum (d.of_int (pos placed_live_kv));
    slots_left = pp.slots_left -ℤ pos 1;
  }

  module _ {B : Type 0} (admit_ttft : Request → B → Bool × B) (room : ℤ) (now : ℕ) where
    -- `while (!pp.done())`, with fuel.
    unfoldable pub refill_loop :
        ℕ
        → Preposition W
        → List BatchDecoder
        → GlobalQueue
        → B
        → List BatchDecoder × GlobalQueue × B
    unfolding next_ideal pull_slot to_batch place
    refill_loop zero pp batch g b = (batch, g, b)
    refill_loop (suc fuel) pp batch g b = elim (done pp) [
      | true ↦ (batch, g, b)
      | false ↦
          let (r, g') = pull_slot (next_ideal pp) room now g in
          elim r [
            | none ↦ (batch, g', b)
            | some q ↦
                let (met, b') = admit_ttft q b in
                refill_loop fuel (place q.prompt pp) (batch ++ to_batch q met ∷ []) g' b'
          ]
    ]

    -- One batch's refill, given the sum of its survivors.
    unfoldable pub refill :
        OperatingPoint W
        → W
        → List BatchDecoder
        → GlobalQueue
        → B
        → List BatchDecoder × GlobalQueue × B
    unfolding start refill_loop
    refill op s batch g b = refill_loop op.decode_count_target (start s (length batch) op) batch g b
