-- ===== src/Sim/Csched/Defs.antt =====
-- A node's part of a round of puls-engine/sim/csched.cpp: compose, advance, retire, heal and the
-- cache budget, over the state that the nodes share.
use puls_rfc.Prelude.{
  ℕ, zero, suc, ◌+◌, ◌-◌, ◌*◌, Bool, true, false, not, ◌&&◌, Option, none, some, List, [], ◌∷◌,
  ◌++◌, map, pos, ◌-ℤ◌, ◌==◌, ltb, leb, length, get_elem?, replicate, sum_by, if◌then◌else◌,
}
use puls_rfc.Double.{Double}
use puls_rfc.Scan.{scan}
use puls_rfc.Steering.{steer_decode_set}
use puls_rfc.Queue.{Request, GlobalQueue, push, pull_slot, swap_remove}
use puls_rfc.Cache.{hit, miss_reload, miss_recompute, on_complete, enforce_budget, lookup}
use puls_rfc.Sim.Harness.{prefill_us}
use puls_rfc.Sim.Pending.{add}
use puls_rfc.Sim.Metrics.{record_batch}
use puls_rfc.Sim.Kpi.{record_mubatch}
use puls_rfc.Sim.Ttft.{Books, restart_us, wait_us, book_ttft, count_return}
use puls_rfc.Sim.Workload.{maybe_return, fresh_arrival}
use puls_rfc.Sim.Csched.State.{
  SimDecoder, live_kv, to_steering, add_gap, Knobs, Shared, CschedNode, advance_gaps,
}

abbrev pub as_request : ℕ → SimDecoder → Request
as_request now q = record {
  id = q.id;
  prompt = q.prompt;
  max_tokens = q.max_tokens;
  cached_prefix = q.cached_prefix;
  arrival = now;
  turn = q.turn;
}

abbrev pub arrival_test : Option ℕ → Request → Bool
arrival_test oldest r = elim oldest [ none ↦ true | some a ↦ ltb r.arrival a ]

abbrev pub arrival_mark : Request → Option ℕ
arrival_mark r = some r.arrival

unfoldable pub admit_to : Request → Bool → List SimDecoder → List SimDecoder
admit_to r met pool =
    pool
    ++ record {
      id = r.id;
      prompt = r.prompt;
      max_tokens = r.max_tokens;
      dec = 0;
      wait = 0;
      turn = r.turn;
      cached_prefix = r.cached_prefix;
      met_ttft = met;
      max_gap = 0;
    }
      ∷ []

module _ {W : Type 0} ⦃d : Double W⦄ {G : Type 0} (k : Knobs W G) (z now : ℕ)
    (measured : Bool) where
  -- A finished decoder: the cache, and its return or a fresh arrival.
  unfoldable pub complete : SimDecoder → Shared W G → Shared W G
  unfolding add_gap on_complete maybe_return fresh_arrival push add
  complete q s =
      let books = record s.books {
        cache = on_complete z q.id (q.prompt + q.dec) now s.books.cache;
      } in
      let gaps = if measured then add_gap q.max_gap s.gap_reqmax else s.gap_reqmax in
      let (ret, w) = maybe_return k.random k.turns (as_request now q) now s.workload in
      let kept = record s { books = books; gap_reqmax = gaps } in
      elim ret [
        | some (round, next) ↦ record kept { pend = add round next s.pend; workload = w }
        | none ↦
            let (fresh, w') =
              fresh_arrival k.random k.turns k.sample_b k.edge_cutoff k.draws now w in
            elim fresh [
              | some r ↦ record kept { queue = push r s.queue; workload = w' }
              | none ↦ record kept { workload = w' }
            ]
      ]

  -- The prompts of the finished decoders, and the decoders kept.
  unfoldable pub retire : List SimDecoder → Shared W G → List ℕ × List SimDecoder × Shared W G
  unfolding complete
  retire [] s = ([], [], s)
  retire (q ∷ qs) s =
      let finished = leb q.max_tokens q.dec in
      let (holes, keep, s') = retire qs (if finished then complete q s else s) in
      if finished then (q.prompt ∷ holes, keep, s') else (holes, q ∷ keep, s')

  unfoldable pub admit_ttft : Request → Shared W G → Bool × Shared W G
  unfolding lookup restart_us wait_us book_ttft count_return prefill_us
  admit_ttft r s =
      let p = k.deployment in
      let full = prefill_us p (pos r.prompt) in
      let timed : W → Books W → Books W = λ ttft b.
        if measured
        then record b { metrics = record b.metrics { ttft = b.metrics.ttft ++ ttft ∷ [] } }
        else b in
      if ltb 0 r.turn
      then (let (lk, c) = lookup r.id now s.books.cache in
          let comp = restart_us p r lk in
          let ttft = d.add (wait_us p now r) comp in
          let m = count_return lk.result s.books.metrics in
          let m' = record m { saved_rounds = d.add m.saved_rounds (d.sub full comp) } in
          let b = record s.books {
            cache = c;
            metrics = if measured then m' else s.books.metrics;
          } in
          let (met, b') = book_ttft p k.slo measured ttft (timed ttft b) in
          let is_hit : Bool =
            measured
            && elim lk.result [ hit ↦ true | miss_reload ↦ false | miss_recompute ↦ false ] in
          let here : Bool = elim lk.node [ some n ↦ n == z | none ↦ false ] in
          (
            met,
            record s {
              books = b';
              phys_hit = if is_hit && here then s.phys_hit + 1 else s.phys_hit;
              remote_hit = if is_hit && not here then s.remote_hit + 1 else s.remote_hit;
            },
          ))
      else (let ttft = d.add (wait_us p now r) full in
          let (met, b') = book_ttft p k.slo measured ttft (timed ttft s.books) in
          (met, record s { books = b' }))

  -- The next request for a hole: the longest waiting of the affinity list, or the queue's.
  unfoldable pub next_request :
      ℕ → List Request → Shared W G → Option Request × List Request × Shared W G
  unfolding scan swap_remove pull_slot
  next_request hole aff s =
      let queued : Option Request × List Request × Shared W G =
        let (r, g) = pull_slot (d.of_int (pos hole)) k.cap_room now s.queue in
        (r, aff, record s { queue = g }) in
      elim (if k.affinity then scan arrival_test arrival_mark 0 none none aff else none) [
        | none ↦ queued
        | some (best, r) ↦
            let waited = now - r.arrival in
            (
              some r,
              swap_remove aff best,
              record s {
                aff_admits = s.aff_admits + 1;
                aff_wait_max = if ltb s.aff_wait_max waited then waited else s.aff_wait_max;
              },
            )
      ]

  unfoldable pub heal : List ℕ → CschedNode → Shared W G → CschedNode × Shared W G
  unfolding next_request admit_ttft admit_to
  heal [] n s = (n, s)
  heal (hole ∷ holes) n s =
      let (r, aff, s1) = next_request hole n.aff s in
      elim r [
        | none ↦ (record n { aff = aff }, s1)
        | some q ↦
            let (met, s2) = admit_ttft q s1 in
            heal holes (record { pool = admit_to q met n.pool; aff = aff }) s2
      ]

  -- The KV sum of the selected decoders, and how many of them met their target.
  unfoldable pub selected_kv : List SimDecoder → List ℕ → ℕ
  selected_kv pool selected =
      sum_by (λ i. elim (get_elem? pool i) [ none ↦ 0 | some q ↦ live_kv q ]) selected

  unfoldable pub selected_met : List SimDecoder → List ℕ → ℕ
  selected_met pool selected =
      sum_by (λ i. elim (get_elem? pool i) [ none ↦ 0 | some q ↦ if q.met_ttft then 1 else 0 ])
        selected

  unfoldable pub record_selected : List SimDecoder → Bool → List ℕ → Books W → Books W
  unfolding selected_kv selected_met record_batch record_mubatch
  record_selected pool b2 selected b =
      let s = selected_kv pool selected in
      if measured
      then record b {
        metrics = record_batch (length selected) s k.deployment.op b2 b.metrics;
        kpi =
            record_mubatch (length selected) s (selected_met pool selected) k.deployment k.slo
              k.beta b.kpi;
      }
      else b

  -- The marks of one batch, or of two over a large enough pool, and their record.
  unfoldable pub compose_round : List SimDecoder → Books W → List Bool × Books W
  unfolding steer_decode_set record_selected
  compose_round pool b =
      let op = k.deployment.op in
      let decoders = map to_steering pool in
      let (p1, used) = steer_decode_set op decoders (replicate (length pool) false) in
      let b1 = record_selected pool false p1 b in
      let (p2, used') = steer_decode_set op decoders used in
      if leb (2 * op.decode_count_target) (length pool)
      then (used', record_selected pool true p2 b1)
      else (used, b1)

  unfoldable pub serve_node : CschedNode → Shared W G → CschedNode × Shared W G
  unfolding compose_round advance_gaps retire heal enforce_budget
  serve_node n s =
      let (used, b) = compose_round n.pool s.books in
      let (moved, gaps) = advance_gaps measured used n.pool s.gap_all in
      let (holes, keep, s1) = retire moved (record s { books = b; gap_all = gaps }) in
      let (n', s2) = heal holes (record n { pool = keep }) s1 in
      let excess = sum_by live_kv n'.pool * k.kv_bpt - k.design_pool_bytes in
      let cache =
        if k.dyncache
        then enforce_budget z (k.cache_cap_static -ℤ pos excess) s2.books.cache
        else s2.books.cache in
      (
        n',
        record s2 {
          books = record s2.books { cache = cache };
          excess_bytes_sum =
              if measured
              then d.add s2.excess_bytes_sum (d.of_int (pos excess))
              else s2.excess_bytes_sum;
          excess_n = if measured then s2.excess_n + 1 else s2.excess_n;
        },
      )

-- `++i` past a young request; an old one goes to the queue and the last takes its place. The index
-- grows or the list shrinks, so `length aff` is fuel enough.
unfoldable pub spill :
    ℕ → ℕ → ℕ → ℕ → List Request → GlobalQueue → ℕ → List Request × GlobalQueue × ℕ
unfolding swap_remove push
spill now cap zero i aff g spills = (aff, g, spills)
spill now cap (suc fuel) i aff g spills = elim (get_elem? aff i) [
  | none ↦ (aff, g, spills)
  | some r ↦ elim (ltb (r.arrival + cap) now) [
    | true ↦ spill now cap fuel i (swap_remove aff i) (push r g) (spills + 1)
    | false ↦ spill now cap fuel (suc i) aff g spills
  ]
]
