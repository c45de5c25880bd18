-- ===== src/Sim/Lifecycle/Prefill.antt =====
-- The prefill part of a node's round in puls-engine/sim/lifecycle.cpp: two chunk batches over one
-- pool, the progress of the requests, and the hand-over of the finished ones. A vector of chunks or
-- marks is as long as the pool.
use puls_rfc.Prelude.{
  ℕ, ◌+◌, Bool, true, false, ◌&&◌, List, [], ◌∷◌, ◌++◌, map, pos, ltb, leb, ◌==◌, length, replicate,
  sum_by, if◌then◌else◌,
}
use puls_rfc.Double.{Double}
use puls_rfc.OperatingPoint.{OperatingPoint}
use puls_rfc.Steering.{PrefillReq, steer_prefill_chunks}

pub record SimPrefill : Type 0 where
  pub prompt : ℕ
  pub dtot : ℕ
  pub processed : ℕ
  pub wait : ℕ

-- A masked request poses as finished.
abbrev pub to_prefill_req : Bool → SimPrefill → PrefillReq
to_prefill_req true q = record { prompt = q.prompt; processed = q.prompt; wait = 0 }
to_prefill_req false q = record { prompt = q.prompt; processed = q.processed; wait = q.wait }

unfoldable pub prefill_reqs : List Bool → List SimPrefill → List PrefillReq
prefill_reqs (m ∷ ms) (q ∷ qs) = to_prefill_req m q ∷ prefill_reqs ms qs
prefill_reqs _ _ = []

-- A batch's chunks, its deviation from the target, and whether it is a hit.
pub record ChunkBatch (W : Type 0) : Type 0 where
  pub chunks : List ℕ
  pub dev : W
  pub hit : Bool

-- `processed += c` and `wait = 0` where the chunks of the two batches are not both 0, else `++wait`.
unfoldable pub progress : List ℕ → List ℕ → List SimPrefill → List SimPrefill
progress (c1 ∷ cs1) (c2 ∷ cs2) (q ∷ qs) =
    (if ltb 0 (c1 + c2)
      then record q { processed = q.processed + (c1 + c2); wait = 0 }
      else record q { wait = q.wait + 1 })
    ∷ progress cs1 cs2 qs
progress _ _ qs = qs

-- What stays in the pool, and the list of finished prefills with the new ones at its end.
unfoldable pub hand_over : List SimPrefill → List SimPrefill → List SimPrefill × List SimPrefill
hand_over [] ready = ([], ready)
hand_over (q ∷ qs) ready =
    let finished = leb q.prompt q.processed in
    let (keep, ready') = hand_over qs (if finished then ready ++ q ∷ [] else ready) in
    (if finished then keep else q ∷ keep, ready')

module _ {W : Type 0} ⦃d : Double W⦄ where
  -- The sum of the depths of the assigned tokens: `c * p0 + c * (c + 1) / 2.0` for a chunk `c`.
  unfoldable pub depth_work : W → List ℕ → List SimPrefill → W
  depth_work w (c ∷ cs) (q ∷ qs) =
      let chunk = d.of_int (pos c) in
      let area = d.div (d.mul chunk (d.of_int (pos (c + 1)))) (d.of_int (pos 2)) in
      depth_work
        (if ltb 0 c then d.add w (d.add (d.mul chunk (d.of_int (pos q.processed))) area) else w) cs
        qs
  depth_work w _ _ = w

  module _ (op : OperatingPoint W) where
    unfoldable pub pf_steer_once : List Bool → List SimPrefill → ChunkBatch W
    unfolding prefill_reqs steer_prefill_chunks depth_work
    pf_steer_once mask pf =
        let chunks = steer_prefill_chunks op (prefill_reqs mask pf) in
        let target = d.of_int (pos op.prefill_kv_work_target) in
        let work = depth_work (d.of_int (pos 0)) chunks pf in
        let dev = d.div (d.fabs (d.sub work target)) target in
        record {
          chunks = chunks;
          dev = dev;
          hit = (sum_by (λ c. c) chunks == op.prefill_tokens) && d.le dev op.idle_band;
        }

    -- The requests of the first batch are masked in the second.
    unfoldable pub prefill_batches : List SimPrefill → ChunkBatch W × ChunkBatch W
    unfolding pf_steer_once
    prefill_batches pf =
        let one = pf_steer_once (replicate (length pf) false) pf in
        let two = pf_steer_once (map (ltb 0) one.chunks) pf in (one, two)
