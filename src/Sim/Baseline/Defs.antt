-- ===== src/Sim/Baseline/Defs.antt =====
-- A node's part of a round of puls-engine/sim/baseline.cpp: compose, advance, retire and heal, over
-- the state that the nodes share.
use puls_rfc.Prelude.{
  ℕ, ◌+◌, ◌*◌, Bool, true, false, none, some, List, [], ◌∷◌, ◌++◌, map, pos, ltb, leb, length,
  get_elem?, replicate, sum_by, if◌then◌else◌,
}
use puls_rfc.Double.{Double}
use puls_rfc.Steering.{Decoder, steer_decode_set}
use puls_rfc.Queue.{Request, GlobalQueue, push, pull_near}
use puls_rfc.Cache.{on_complete, lookup}
use puls_rfc.Sim.Harness.{prefill_us}
use puls_rfc.Sim.Pending.{PendingReturns, add}
use puls_rfc.Sim.Metrics.{record_batch}
use puls_rfc.Sim.Kpi.{record_mubatch}
use puls_rfc.Sim.Ttft.{Books, restart_us, wait_us, book_ttft, admit_ttft}
use puls_rfc.Sim.Workload.{MultiTurnWorkload, maybe_return, fresh_arrival}
use puls_rfc.Sim.Csched.{Knobs}

pub record SimDecoder : Type 0 where
  pub id : ℕ
  pub prompt : ℕ
  pub max_tokens : ℕ
  pub dec : ℕ
  pub wait : ℕ
  pub turn : ℕ
  pub cached_prefix : ℕ
  pub met_ttft : Bool

abbrev pub live_kv : SimDecoder → ℕ
live_kv q = q.prompt + q.dec

abbrev pub to_steering : SimDecoder → Decoder
to_steering q = record { kv_length = live_kv q; wait = q.wait }

pub record BaseState (W G : Type 0) : Type 0 where
  pub queue : GlobalQueue
  pub pend : PendingReturns
  pub workload : MultiTurnWorkload G
  pub books : Books W

abbrev pub as_request : ℕ → SimDecoder → Request
as_request now q = record {
  id = q.id;
  prompt = q.prompt;
  max_tokens = q.max_tokens;
  cached_prefix = q.cached_prefix;
  arrival = now;
  turn = q.turn;
}

abbrev pub admitted : Request → Bool → SimDecoder
admitted r met = record {
  id = r.id;
  prompt = r.prompt;
  max_tokens = r.max_tokens;
  dec = 0;
  wait = 0;
  turn = r.turn;
  cached_prefix = r.cached_prefix;
  met_ttft = met;
}

unfoldable pub advance : List Bool → List SimDecoder → List SimDecoder
advance (u ∷ us) (q ∷ qs) =
    (if u then record q { dec = q.dec + 1; wait = 0 } else record q { wait = q.wait + 1 })
    ∷ advance us qs
advance _ qs = qs

-- The KV sum of the selected decoders, and how many of them met their target.
unfoldable pub selected_kv : List SimDecoder → List ℕ → ℕ
selected_kv pool selected =
    sum_by (λ i. elim (get_elem? pool i) [ none ↦ 0 | some q ↦ live_kv q ]) selected

unfoldable pub selected_met : List SimDecoder → List ℕ → ℕ
selected_met pool selected =
    sum_by (λ i. elim (get_elem? pool i) [ none ↦ 0 | some q ↦ if q.met_ttft then 1 else 0 ])
      selected

module _ {W : Type 0} ⦃d : Double W⦄ {G : Type 0} (k : Knobs W G) (now : ℕ) (measured : Bool) where
  -- The admission of the cold start: the request's arrival is set to `now` first.
  unfoldable pub cold_ttft : SimDecoder → Books W → Bool × Books W
  unfolding restart_us wait_us book_ttft prefill_us lookup
  cold_ttft q b =
      let p = k.deployment in
      let r = as_request now q in
      if ltb 0 r.turn
      then (let (lk, c) = lookup r.id now b.cache in
          let ttft = d.add (wait_us p now r) (restart_us p r lk) in
          book_ttft p k.slo measured ttft (record b { cache = c }))
      else book_ttft p k.slo measured (d.add (wait_us p now r) (prefill_us p (pos r.prompt))) b

  -- The admission of a heal; the drivers book it alike.
  unfoldable pub heal_ttft : Request → Books W → Bool × Books W
  unfolding admit_ttft
  heal_ttft r b = admit_ttft k.deployment k.slo measured now r b

  unfoldable pub record_selected : List SimDecoder → Bool → List ℕ → Books W → Books W
  unfolding selected_kv selected_met record_batch record_mubatch
  record_selected pool b2 selected b =
      let s = selected_kv pool selected in
      if measured
      then record b {
        metrics = record_batch (length selected) s k.deployment.op b2 b.metrics;
        kpi =
            record_mubatch (length selected) s (selected_met pool selected) k.deployment k.slo
              k.beta b.kpi;
      }
      else b

  -- The marks of one batch, or of two over a large enough pool, and their record.
  unfoldable pub compose_round : List SimDecoder → Books W → List Bool × Books W
  unfolding steer_decode_set record_selected
  compose_round pool b =
      let op = k.deployment.op in
      let decoders = map to_steering pool in
      let (p1, used) = steer_decode_set op decoders (replicate (length pool) false) in
      let b1 = record_selected pool false p1 b in
      let (p2, used') = steer_decode_set op decoders used in
      if leb (2 * op.decode_count_target) (length pool)
      then (used', record_selected pool true p2 b1)
      else (used, b1)

  -- A finished decoder of node `z`: the cache gets its prompt's length, and a return or a fresh
  -- arrival takes its place in the population.
  unfoldable pub finish : ℕ → SimDecoder → BaseState W G → BaseState W G
  unfolding on_complete maybe_return fresh_arrival push add
  finish z q s =
      let books = record s.books { cache = on_complete z q.id q.prompt now s.books.cache } in
      let (ret, w) = maybe_return k.random k.turns (as_request now q) now s.workload in
      let kept = record s { books = books } in
      elim ret [
        | some (round, next) ↦ record kept { pend = add round next s.pend; workload = w }
        | none ↦
            let (fresh, w') =
              fresh_arrival k.random k.turns k.sample_b k.edge_cutoff k.draws now w in
            elim fresh [
              | some r ↦ record kept { queue = push r s.queue; workload = w' }
              | none ↦ record kept { workload = w' }
            ]
      ]

  -- The prompts of the finished decoders, and the decoders kept.
  unfoldable pub retire :
      ℕ → List SimDecoder → BaseState W G → List ℕ × List SimDecoder × BaseState W G
  unfolding finish
  retire z [] s = ([], [], s)
  retire z (q ∷ qs) s =
      let finished = leb q.max_tokens q.dec in
      let (holes, keep, s') = retire z qs (if finished then finish z q s else s) in
      if finished then (q.prompt ∷ holes, keep, s') else (holes, q ∷ keep, s')

  -- Each hole takes the request nearest to it; a queue with none that fits ends the healing.
  unfoldable pub heal : List ℕ → List SimDecoder → BaseState W G → List SimDecoder × BaseState W G
  unfolding pull_near heal_ttft
  heal [] pool s = (pool, s)
  heal (hole ∷ holes) pool s =
      let (r, g) = pull_near (d.of_int (pos hole)) k.cap_room s.queue in
      elim r [
        | none ↦ (pool, record s { queue = g })
        | some q ↦
            let (met, b) = heal_ttft q s.books in
            heal holes (pool ++ admitted q met ∷ []) (record s { queue = g; books = b })
      ]

  unfoldable pub serve_node : ℕ → List SimDecoder → BaseState W G → List SimDecoder × BaseState W G
  unfolding compose_round advance retire heal
  serve_node z pool s =
      let (used, b) = compose_round pool s.books in
      let (holes, keep, s1) = retire z (advance used pool) (record s { books = b }) in
      heal holes keep s1
