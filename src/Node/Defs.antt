-- ===== src/Node/Defs.antt =====
-- `NodeScheduler` of puls-engine/core/node_scheduler.cpp. The state is the pool with the state of
-- the request source.
use puls_rfc.Prelude.{
  ℕ, ◌+◌, ◌*◌, Bool, false, none, some, List, [], ◌∷◌, ◌++◌, map, ℤ, pos, ◌*ℤ◌, leb, length,
  replicate, sum_by, if◌then◌else◌,
}
use puls_rfc.Double.{Double}
use puls_rfc.OperatingPoint.{OperatingPoint}
use puls_rfc.RequestSource.{PulledRequest, RequestSource}
use puls_rfc.Steering.{Decoder, steer_decode_set}

pub record NodeDecoder : Type 0 where
  pub prompt : ℕ
  pub dtot : ℕ
  pub dec : ℕ
  pub wait : ℕ

pub record NodeScheduler (S : Type 0) : Type 0 where
  pub source : S
  pub pool : List NodeDecoder

abbrev pub live_kv : NodeDecoder → ℕ
live_kv q = q.prompt + q.dec

-- A new decoder starts with `dec = 0` and `wait = 0`.
abbrev pub admitted : PulledRequest → NodeDecoder
admitted r = record { prompt = r.prompt; dtot = r.dtot; dec = 0; wait = 0 }

abbrev pub to_decoder : NodeDecoder → Decoder
to_decoder q = record { kv_length = live_kv q; wait = q.wait }

unfoldable pub sum_live_kv : List NodeDecoder → ℕ
sum_live_kv pool = sum_by live_kv pool

-- `++dec` and `wait = 0` where `used`, `++wait` elsewhere.
unfoldable pub advance : List Bool → List NodeDecoder → List NodeDecoder
advance (u ∷ us) (q ∷ qs) =
    (if u then record q { dec = q.dec + 1; wait = 0 } else record q { wait = q.wait + 1 })
    ∷ advance us qs
advance _ qs = qs

abbrev pub is_done : NodeDecoder → Bool
is_done q = leb q.dtot q.dec

-- The prompts of the finished decoders (`holes`), and the rest of the pool (`keep`).
unfoldable pub retire : List NodeDecoder → List ℕ × List NodeDecoder
retire [] = ([], [])
retire (q ∷ qs) =
    let (holes, keep) = retire qs in
    if is_done q then (q.prompt ∷ holes, keep) else (holes, q ∷ keep)

module _ {W : Type 0} ⦃d : Double W⦄ (op : OperatingPoint W) where
  unfoldable pub node_cap_room : ℤ
  node_cap_room = pos op.decode_pool *ℤ d.trunc op.ctx_balance *ℤ pos 4

  unfoldable pub mean_live_kv : List NodeDecoder → W
  unfolding sum_live_kv
  mean_live_kv [] = d.of_int (pos 0)
  mean_live_kv (q ∷ qs) =
      d.div (d.of_int (pos (sum_live_kv (q ∷ qs)))) (d.of_int (pos (length (q ∷ qs))))

  unfoldable pub compose_decode_batch : List NodeDecoder → List Bool → List ℕ × List Bool
  unfolding steer_decode_set
  compose_decode_batch pool used = steer_decode_set op (map to_decoder pool) used

  -- The `used` marks of a round: one batch, and a second one over a large enough pool.
  unfoldable pub round_marks : List NodeDecoder → List Bool
  unfolding compose_decode_batch
  round_marks pool =
      let used = (compose_decode_batch pool (replicate (length pool) false)).1 in
      if leb (2 * op.decode_count_target) (length pool)
      then (compose_decode_batch pool used).1
      else used

  -- `ideal = ctx_balance * (cnt + 1) - live_sum`, and at least 1000.
  unfoldable pub admit_ideal : List NodeDecoder → W
  unfolding sum_live_kv
  admit_ideal pool =
      let ideal =
        d.sub (d.mul op.ctx_balance (d.of_int (pos (length pool + 1))))
          (d.of_int (pos (sum_live_kv pool))) in
      let floor = d.of_int (pos 1000) in if d.lt ideal floor then floor else ideal

  module _ {S : Type 0} (src : RequestSource W S) where
    -- One `pull_near`, and `push_back` of what came.
    unfoldable pub pull_into : W → NodeScheduler S → NodeScheduler S
    unfolding node_cap_room
    pull_into ideal n =
        let (r, source') = src.pull_near ideal node_cap_room n.source in
        record {
          source = source';
          pool = elim r [ none ↦ n.pool | some q ↦ n.pool ++ admitted q ∷ [] ];
        }

    unfoldable pub admit_centered : NodeScheduler S → NodeScheduler S
    unfolding pull_into admit_ideal
    admit_centered n = pull_into (admit_ideal n.pool) n

    -- Each hole is refilled with `ideal = hole`.
    unfoldable pub heal : List ℕ → NodeScheduler S → NodeScheduler S
    unfolding pull_into
    heal [] n = n
    heal (hole ∷ holes) n = heal holes (pull_into (d.of_int (pos hole)) n)

    -- The number of finished decoders, and the state after the round.
    unfoldable pub advance_round : NodeScheduler S → ℕ × NodeScheduler S
    unfolding round_marks advance retire heal
    advance_round n =
        let (holes, keep) = retire (advance (round_marks n.pool) n.pool) in
        (length holes, heal holes (record n { pool = keep }))
