-- ===== src/Sim/Refill.antt =====
-- What a refill (the loop over `Preposition` in puls-engine/sim/prepo.cpp) reaches.
use mathlib.Core.List.Perm
use mathlib.Core.List.{Perm, append-nil, append_assoc}
use puls_rfc.Prelude.{
  ℕ, zero, suc, ◌+◌, ◌≤◌, ◌<◌, ◌≡◌, refl, sym, subst, some-injective, ◌∙◌, ◌⊎◌, inl, inr, Bool,
  false, Option, none, some, [], ◌∷◌, ◌++◌, List, map, ℤ, pos, sub_ℕ, ltb_ℤ, arith, length,
  length-append, Bool-cases, get_elem?,
}
use puls_rfc.Double.{Double, IsOrdered}
use puls_rfc.OperatingPoint.{OperatingPoint}
use puls_rfc.Steering.{far, dist}
use puls_rfc.Queue.{Request, GlobalQueue, pull_slot}
use puls_rfc.Queue.Pull.{IsSlotPull, IsAged, pull_slot-IsSlotPull}
use puls_rfc.Sim.Preposition.{
  Preposition, BatchDecoder, to_batch, start, done, next_ideal, place, refill_loop, refill,
}

-- The request that a decoder of the batch came from.
abbrev pub as_request : BatchDecoder → Request
as_request q = record {
  id = q.id;
  prompt = q.prompt;
  max_tokens = q.max_tokens;
  cached_prefix = q.cached_prefix;
  arrival = q.arrival;
  turn = q.turn;
}

module _ {W : Type 0} ⦃d : Double W⦄ where
  -- The KV of the survivors and, one after the other, of the prompts placed.
  abbrev pub kv_with : W → List BatchDecoder → W
  kv_with s [] = s
  kv_with s (q ∷ placed) = kv_with (d.add s (d.of_int (pos q.prompt))) placed

  -- The share of a free slot in what is left of the KV target: `target` slots, of which `count` are
  -- filled with KV `s` in sum.
  abbrev pub share : ℕ → ℕ → W → ℕ → W
  share kv_target target s count =
      d.div (d.sub (d.of_int (pos kv_target)) s) (d.of_int (sub_ℕ target count))

module _ {W : Type 0} ⦃d : Double W⦄ (laws : IsOrdered W) (room : ℤ) (now : ℕ) where
  -- Nothing in the queue can fill the slot: no request is past the age cap, and each one is too large
  -- for the room or out of range of the search for this ideal.
  abbrev pub IsDry : W → GlobalQueue → Type 0
  IsDry ideal g =
      ((j : ℕ) (y : Request) → get_elem? g.q j ≡ some y → ¬ IsAged now g y)
      × ((j : ℕ) (y : Request)
          → get_elem? g.q j ≡ some y
          → ltb_ℤ room (pos y.prompt) ≡ false
          → d.lt (dist ideal y.prompt) far ≡ false)

  -- One request less in the queue, or the queue as it is, and dry.
  abbrev pub Taken : W → GlobalQueue → Option Request × GlobalQueue → Type 0
  Taken ideal g (some q, g') = (length g'.q + 1 ≡ length g.q) × Perm g.q (q ∷ g'.q)
  Taken ideal g (none, g') = (g'.q ≡ g.q) × IsDry ideal g'

  pub slot-Taken : (ideal : W) (g : GlobalQueue) → Taken ideal g (pull_slot ideal room now g)
  slot-Taken ideal g =
      from (pull_slot ideal room now g) (pull_slot-IsSlotPull laws ideal room now g)
    where
      from :
          (p : Option Request × GlobalQueue) → IsSlotPull laws ideal room now g p → Taken ideal g p
      from (none, g') (inl (r, same, left, a, b, c)) = absurd (cc)
      from (none, g') (inr (young, (same, dry))) = rw same (refl, (young, dry))
      from (some q, g') (inl (r, same, left, a, b, c)) = (
        omega (arith, left.fewer),
        subst (λ z. Perm g.q (z ∷ g'.q)) (sym (some-injective q r same)) left.perm,
      )
      from (some q, g') (inr (young, (left, a, b, c))) = (omega (arith, left.fewer), left.perm)

  -- The batch at the end is the one at the start with those placed behind it. These come from the
  -- requests that left the queue, and the batch is full or the queue dry for a free slot's share.
  pub record IsRefilled (target kv_target : ℕ) (s : W) (batch : List BatchDecoder) (g : GlobalQueue)
      (batch' : List BatchDecoder) (g' : GlobalQueue) : Type 0 where
    pub placed : List BatchDecoder
    pub behind : batch' ≡ batch ++ placed
    pub moved : Perm g.q (map as_request placed ++ g'.q)
    pub counted : length batch' + length g'.q ≡ length batch + length g.q
    pub filled :
        (length batch' ≡ target)
        ⊎ (length batch' < target)
          × IsDry (share kv_target target (kv_with s placed) (length batch')) g'

  -- One request more, placed before the others.
  one_more :
      (target kv_target : ℕ) (s : W) (batch : List BatchDecoder) (g : GlobalQueue) (q : Request)
      (met : Bool) (g' : GlobalQueue) (batch' : List BatchDecoder) (g'' : GlobalQueue)
      → (length g'.q + 1 ≡ length g.q) × Perm g.q (q ∷ g'.q)
      → (let x = to_batch q met in
          let s' = d.add s (d.of_int (pos q.prompt)) in
          IsRefilled target kv_target s' (batch ++ x ∷ []) g' batch' g'')
      → IsRefilled target kv_target s batch g batch' g''
  unfolding to_batch
  one_more target kv_target s batch g q met g' batch' g'' (fewer, perm) r =
      let x = to_batch q met in
      record {
        placed = x ∷ r.placed;
        behind = r.behind ∙ append_assoc batch (x ∷ []) r.placed;
        moved = Perm.trans perm (Perm.cons q r.moved);
        counted = omega (arith, r.counted, length-append batch (x ∷ []), fewer);
        filled = r.filled;
      }

  module _ {B : Type 0} (admit_ttft : Request → B → Bool × B) where
    abbrev Refilled :
        ℕ
        → Preposition W
        → List BatchDecoder
        → GlobalQueue
        → List BatchDecoder × GlobalQueue × B
        → Type 0
    Refilled target pp batch g (batch', g', b') =
        IsRefilled target pp.kv_target pp.sum batch g batch' g'

    full-Refilled :
        (target : ℕ) (pp : Preposition W) (batch : List BatchDecoder) (g : GlobalQueue)
        → length batch ≡ target
        → IsRefilled target pp.kv_target pp.sum batch g batch g
    full-Refilled target pp batch g full = record {
      placed = [];
      behind = sym (append-nil batch);
      moved = Perm.rfl;
      counted = refl;
      filled = inl full;
    }

    refill_loop-Refilled :
        (target fuel : ℕ) (pp : Preposition W) (batch : List BatchDecoder) (g : GlobalQueue) (b : B)
        → length batch ≤ target
        → target ≤ fuel + length batch
        → pp.slots_left ≡ sub_ℕ target (length batch)
        → Refilled target pp batch g (refill_loop admit_ttft room now fuel pp batch g b)
    unfolding refill_loop place next_ideal to_batch
    refill_loop-Refilled target zero pp batch g b fits enough left =
        full-Refilled target pp batch g (omega arith)
    refill_loop-Refilled target (suc fuel) pp batch g b fits enough left =
        elim (Bool-cases (done pp)) [
          | inl full ↦ rw (full, refill_loop) (full-Refilled target pp batch g (ground arith))
          | inr more ↦
              rw (more, refill_loop)
                (go (pull_slot (next_ideal pp) room now g) (slot-Taken (next_ideal pp) g)
                  (ground arith) (refill_loop-Refilled target fuel))
        ]
      where
        go :
            (r : Option Request × GlobalQueue)
            → Taken (next_ideal pp) g r
            → length batch < target
            → ((pp : Preposition W) (batch : List BatchDecoder) (g : GlobalQueue) (b : B)
                → length batch ≤ target
                → target ≤ fuel + length batch
                → pp.slots_left ≡ sub_ℕ target (length batch)
                → Refilled target pp batch g (refill_loop admit_ttft room now fuel pp batch g b))
            → Refilled target pp batch g (elim r.0 [
              | none ↦ (batch, r.1, b)
              | some q ↦
                  let (met, b') = admit_ttft q b in
                  refill_loop admit_ttft room now fuel
                    (place q.prompt pp)
                    (batch ++ to_batch q met ∷ [])
                    r.1
                    b'
            ])
        go (none, g') (same, dry) short rest = record {
          placed = [];
          behind = sym (append-nil batch);
          moved = rw same Perm.rfl;
          counted = rw same refl;
          filled = inr (
            short,
            subst
                (λ slots.
                  IsDry (d.div (d.sub (d.of_int (pos pp.kv_target)) pp.sum) (d.of_int slots)) g')
                left dry,
          );
        }
        go (some q, g') taken short rest =
            let (met, b') = admit_ttft q b in
            let x = to_batch q met in
            let grown = length-append batch (x ∷ []) in
            one_more target pp.kv_target pp.sum batch g q met g' _ _ taken (
              rest (place q.prompt pp) (batch ++ x ∷ []) g' b' (omega arith) (omega arith)
                (ground (arith, grown)))

    -- From a batch of at most `decode_count_target`, and whatever is booked for an admission, a refill
    -- puts decoders behind those of the batch whose requests are, each as often as it was there, those
    -- that left the queue. It ends with the batch full, or with no request past the age cap and none
    -- that fits in reach of a free slot's share of the KV target: the target less the KV of the
    -- survivors and of the prompts placed, by the number of free slots.
    pub refill_lem :
        (op : OperatingPoint W) (s : W) (batch : List BatchDecoder) (g : GlobalQueue) (b : B)
        → length batch ≤ op.decode_count_target
        → (let (batch', g', b') = refill admit_ttft room now op s batch g b in
            IsRefilled op.decode_count_target op.kv_operating_target s batch g batch' g')
    unfolding refill start
    refill_lem op s batch g b fits =
        refill_loop-Refilled op.decode_count_target op.decode_count_target
          (start s (length batch) op) batch g b fits (omega arith) refl
