-- ===== src/Sim/Workload.antt =====
-- The workloads of puls-engine/core/workload.cpp and puls-engine/sim/workload_mt.cpp. The random
-- engine with its distributions is a parameter; `sample_b` is the draw of `sample_distribution_b`.
use puls_rfc.Prelude.{
  ℕ, zero, suc, ◌+◌, ◌≤◌, ◌<◌, ◌≡◌, ◌⊎◌, refl, subst, inl, inr, Bool, true, false, not, ◌&&◌,
  Option, none, some, List, [], ◌∷◌, ℤ, pos, ltb, ltb_ℤ, arith, if◌then◌else◌, Bool-cases,
}
use puls_rfc.Double.{Double}
use puls_rfc.RequestSource.{PulledRequest}
use puls_rfc.Steering.{dist}
use puls_rfc.Queue.{Request}

-- What is used of `std::mt19937` with the uniform distributions, over its state `G`.
pub record Random (W G : Type 0) : Type 0 where
  -- `std::uniform_int_distribution<int>(lo, hi)`
  pub uniform_int : ℕ → ℕ → G → ℕ × G
  -- `std::uniform_real_distribution<double>(0, 1)`
  pub uniform_real : G → W × G

-- The documented range of the integer distribution.
pub record IsUniform {W G : Type 0} (random : Random W G) : Type 0 where
  pub in_range :
      (lo hi : ℕ) (g : G)
      → lo ≤ hi
      → (lo ≤ (random.uniform_int lo hi g).0) × ((random.uniform_int lo hi g).0 ≤ hi)

pub record MultiTurnConfig (W : Type 0) : Type 0 where
  pub p_return_short : W
  pub p_return_mid : W
  pub p_return_long : W
  pub dtot_lo : ℕ
  pub dtot_hi : ℕ
  pub new_msg_lo : ℕ
  pub new_msg_hi : ℕ
  pub think_gap_lo : ℕ
  pub think_gap_hi : ℕ

-- The classes 0, 1 and 2 of a prompt's length.
pub data LengthClass : Type 0 where
  short : LengthClass
  mid : LengthClass
  long : LengthClass

unfoldable pub cls : ℕ → LengthClass
cls prompt = if ltb prompt 16000 then short else (if ltb prompt 256000 then mid else long)

pub record MultiTurnWorkload (G : Type 0) : Type 0 where
  pub rng : G
  pub next_id : ℕ

-- `none` is `returns == false`; else the round of the return, and the next turn.
abbrev pub Return : Type 0
Return = Option (ℕ × Request)

abbrev pub returns : Return → Bool
returns none = false
returns (some r) = true

module _ {W : Type 0} ⦃d : Double W⦄ where
  abbrev pub is_better : W → ℤ → Option ℕ → ℕ → Bool
  is_better ideal room best length =
      not (ltb_ℤ room (pos length))
      && elim best [ none ↦ true | some b ↦ d.lt (dist ideal length) (dist ideal b) ]

  -- The best of the draws that fit, with `best` so far: `if (dev < best_dev)`.
  unfoldable pub best_of : W → ℤ → Option ℕ → List ℕ → Option ℕ
  best_of ideal room best [] = best
  best_of ideal room best (length ∷ draws) =
      best_of ideal room (if is_better ideal room best length then some length else best) draws

  -- `WorkloadSource::pull_near` on its `k` draws.
  unfoldable pub workload_pull_near : W → ℤ → List ℕ → Option PulledRequest
  unfolding best_of
  workload_pull_near ideal room draws = elim (best_of ideal room none draws) [
    | none ↦ none
    | some best ↦ some (record { prompt = best; dtot = if ltb 1000 best then best else 1000 })
  ]

  module _ {G : Type 0} (random : Random W G) (cfg : MultiTurnConfig W) where
    abbrev pub p_return : LengthClass → W
    p_return short = cfg.p_return_short
    p_return mid = cfg.p_return_mid
    p_return long = cfg.p_return_long

    unfoldable pub maybe_return : Request → ℕ → MultiTurnWorkload G → Return × MultiTurnWorkload G
    unfolding cls
    maybe_return prev now w =
        let (u, g1) = random.uniform_real w.rng in
        if d.lt u (p_return (cls prev.prompt))
        then (let (think_gap, g2) = random.uniform_int cfg.think_gap_lo cfg.think_gap_hi g1 in
            let (p2, g3) = random.uniform_int cfg.new_msg_lo cfg.new_msg_hi g2 in
            let (dtot, g4) = random.uniform_int cfg.dtot_lo cfg.dtot_hi g3 in
            let prefix = prev.prompt + prev.max_tokens in
            (
              some (
                now + think_gap,
                record {
                  id = prev.id;
                  prompt = prefix + p2;
                  max_tokens = dtot;
                  cached_prefix = prefix;
                  arrival = now + think_gap;
                  turn = prev.turn + 1;
                },
              ),
              record w { rng = g4 },
            ))
        else (none, record w { rng = g1 })

    -- `do { v = sample } while (v > edge_cutoff_)` draws again until a sample is inside; with fuel.
    unfoldable pub gated_sample : (G → ℕ × G) → ℤ → ℕ → G → Option ℕ × G
    gated_sample sample_b edge_cutoff zero g = (none, g)
    gated_sample sample_b edge_cutoff (suc fuel) g =
        let (v, g') = sample_b g in
        elim (ltb_ℤ edge_cutoff (pos v)) [
          | true ↦ gated_sample sample_b edge_cutoff fuel g'
          | false ↦ (some v, g')
        ]

    unfoldable pub fresh_arrival :
        (G → ℕ × G) → ℤ → ℕ → ℕ → MultiTurnWorkload G → Option Request × MultiTurnWorkload G
    unfolding gated_sample
    fresh_arrival sample_b edge_cutoff fuel now w =
        let (v, g1) = gated_sample sample_b edge_cutoff fuel w.rng in
        elim v [
          | none ↦ (none, record { rng = g1; next_id = w.next_id + 1 })
          | some prompt ↦
              let (dtot, g2) = random.uniform_int cfg.dtot_lo cfg.dtot_hi g1 in
              (
                some (record {
                  id = w.next_id;
                  prompt = prompt;
                  max_tokens = dtot;
                  cached_prefix = 0;
                  arrival = now;
                  turn = 0;
                }),
                record { rng = g2; next_id = w.next_id + 1 },
              )
        ]

module _ {W : Type 0} ⦃d : Double W⦄ {G : Type 0} (random : Random W G)
    (cfg : MultiTurnConfig W) where
  -- What the caches and the queues rely on in a return: it is the next turn of the same conversation,
  -- it comes after a pause within the bounds, its cached prefix is the whole of the turn before, and
  -- its new message is within the bounds.
  pub record IsNextTurn (prev : Request) (now round : ℕ) (next : Request) : Type 0 where
    pub same_id : next.id ≡ prev.id
    pub one_turn : next.turn ≡ prev.turn + 1
    pub on_time : next.arrival ≡ round
    pub pause : (now + cfg.think_gap_lo ≤ round) × (round ≤ now + cfg.think_gap_hi)
    pub prefix : next.cached_prefix ≡ prev.prompt + prev.max_tokens
    pub message :
        (next.cached_prefix + cfg.new_msg_lo ≤ next.prompt)
        × (next.prompt ≤ next.cached_prefix + cfg.new_msg_hi)
    pub tokens : (cfg.dtot_lo ≤ next.max_tokens) × (next.max_tokens ≤ cfg.dtot_hi)

  abbrev pub IsReturn : Request → ℕ → Return → Type 0
  IsReturn prev now none = Unit {0}
  IsReturn prev now (some (round, next)) = IsNextTurn prev now round next

  -- The draw decides: a prompt below 16000 tokens returns by the chance of a short one, a prompt below
  -- 256000 by that of a middle one, and any longer one by that of a long one.
  abbrev pub IsDecided : Request → W → Bool → Type 0
  IsDecided prev u back =
      (prev.prompt < 16000) × (back ≡ d.lt u cfg.p_return_short)
      ⊎ (16000 ≤ prev.prompt) × (prev.prompt < 256000) × (back ≡ d.lt u cfg.p_return_mid)
      ⊎ (256000 ≤ prev.prompt) × (back ≡ d.lt u cfg.p_return_long)

  cls-IsDecided :
      (prev : Request) (u : W) → IsDecided prev u (d.lt u (p_return random cfg (cls prev.prompt)))
  unfolding cls
  cls-IsDecided prev u = elim (Bool-cases (ltb prev.prompt 16000)) [
    | inl few ↦ rw (few, cls) (inl (ground arith, refl))
    | inr many ↦ elim (Bool-cases (ltb prev.prompt 256000)) [
      | inl some_more ↦ rw (many, some_more, cls) (inr (inl (ground arith, ground arith, refl)))
      | inr most ↦ rw (many, most, cls) (inr (inr (ground arith, refl)))
    ]
  ]

  -- With ordered bounds and draws within them, a conversation that returns does so as its next turn,
  -- and whether it returns is decided by one draw, against the chance for short prompts below 16000
  -- tokens, for middle ones below 256000, and for long ones from there on.
  pub maybe_return_lem :
      (prev : Request) (now : ℕ) (w : MultiTurnWorkload G)
      → IsUniform random
      → cfg.think_gap_lo ≤ cfg.think_gap_hi
      → cfg.new_msg_lo ≤ cfg.new_msg_hi
      → cfg.dtot_lo ≤ cfg.dtot_hi
      → (let r = (maybe_return random cfg prev now w).0 in
          IsReturn prev now r × IsDecided prev (random.uniform_real w.rng).0 (returns r))
  unfolding maybe_return
  maybe_return_lem prev now w uniform gaps messages tokens =
      let (u, g1) = random.uniform_real w.rng in
      let (think_gap, g2) = random.uniform_int cfg.think_gap_lo cfg.think_gap_hi g1 in
      let (p2, g3) = random.uniform_int cfg.new_msg_lo cfg.new_msg_hi g2 in
      let gap_in = uniform.in_range cfg.think_gap_lo cfg.think_gap_hi g1 gaps in
      let message_in = uniform.in_range cfg.new_msg_lo cfg.new_msg_hi g2 messages in
      let tokens_in = uniform.in_range cfg.dtot_lo cfg.dtot_hi g3 tokens in
      let decided = cls-IsDecided prev u in
      elim (Bool-cases (d.lt u (p_return random cfg (cls prev.prompt)))) [
        | inl back ↦
            rw (back, maybe_return)
              (
                record {
                  same_id = refl;
                  one_turn = refl;
                  on_time = refl;
                  pause = (omega (arith, gap_in.0), omega (arith, gap_in.1));
                  prefix = refl;
                  message = (omega (arith, message_in.0), omega (arith, message_in.1));
                  tokens = tokens_in;
                },
                subst (IsDecided prev u) back decided,
              )
        | inr gone ↦ rw (gone, maybe_return) (tt, subst (IsDecided prev u) gone decided)
      ]
