-- ===== src/Sim/Prepo/Round.antt =====
-- The rounds of puls-engine/sim/prepo.cpp over all nodes, each with two batches, the diagnosis of the
-- batches, and the cold start.
use puls_rfc.Prelude.{
  ℕ, zero, suc, ◌+◌, Bool, true, false, ◌&&◌, none, some, List, [], ◌∷◌, ◌++◌, pos, ltb, leb,
  if◌then◌else◌,
}
use puls_rfc.Double.{Double}
use puls_rfc.Queue.{push, pull_near}
use puls_rfc.Cache.{evict_tick}
use puls_rfc.Sim.Pending.{due, push_all}
use puls_rfc.Sim.Metrics.{record_pool}
use puls_rfc.Sim.Ttft.{Books, admit_ttft}
use puls_rfc.Sim.Preposition.{Preposition, BatchDecoder, to_batch, start, done, next_ideal, place}
use puls_rfc.Sim.Workload.{LengthClass, short, mid, long, cls, fresh_arrival}
use puls_rfc.Sim.Csched.{Knobs}
use puls_rfc.Sim.Prepo.{PrepoState, batch_kv, serve_batch}

-- The two batches of a node.
abbrev pub PrepoNode : Type 0
PrepoNode = List BatchDecoder × List BatchDecoder

-- The total of the live KV, the number of decoders, and the counters of the three classes.
pub record BatchSums (W : Type 0) : Type 0 where
  pub total : ℕ
  pub n : ℕ
  pub cnt : W × W × W

module _ {W : Type 0} ⦃d : Double W⦄ where
  abbrev pub count_class : LengthClass → W × W × W → W × W × W
  count_class short (a, b, c) = (d.add a (d.of_int (pos 1)), b, c)
  count_class mid (a, b, c) = (a, d.add b (d.of_int (pos 1)), c)
  count_class long (a, b, c) = (a, b, d.add c (d.of_int (pos 1)))

  unfoldable pub note_batch : List BatchDecoder → BatchSums W → BatchSums W
  unfolding cls
  note_batch [] r = r
  note_batch (q ∷ qs) r =
      note_batch qs (record {
        total = r.total + batch_kv q;
        n = r.n + 1;
        cnt = count_class (cls q.prompt) r.cnt;
      })

  unfoldable pub note_nodes : List PrepoNode → BatchSums W → BatchSums W
  unfolding note_batch
  note_nodes [] r = r
  note_nodes ((a, b) ∷ nodes) r = note_nodes nodes (note_batch b (note_batch a r))

  unfoldable pub diagnose : Bool → List PrepoNode → Books W → Books W
  unfolding note_nodes record_pool
  diagnose measured nodes b =
      let none_yet = d.of_int (pos 0) in
      let r =
        note_nodes nodes (record { total = 0; n = 0; cnt = (none_yet, none_yet, none_yet) }) in
      let size = d.of_int (pos r.n) in
      if measured && ltb 0 r.n
      then record b {
        metrics =
            record_pool (d.div (d.of_int (pos r.total)) size)
              (d.div r.cnt.0 size, d.div r.cnt.1 size, d.div r.cnt.2 size) b.metrics;
      }
      else b

  module _ {G : Type 0} (k : Knobs W G) where
    unfoldable pub serve_nodes :
        ℕ → ℕ → Bool → List PrepoNode → PrepoState W G → List PrepoNode × PrepoState W G
    unfolding serve_batch
    serve_nodes z now measured [] s = ([], s)
    serve_nodes z now measured ((a, b) ∷ nodes) s =
        let (a', s1) = serve_batch k z now measured false a s in
        let (b', s2) = serve_batch k z now measured true b s1 in
        let (nodes', s3) = serve_nodes (suc z) now measured nodes s2 in ((a', b') ∷ nodes', s3)

    unfoldable pub round_step :
        ℕ → Bool → List PrepoNode → PrepoState W G → List PrepoNode × PrepoState W G
    unfolding evict_tick due push_all serve_nodes diagnose
    round_step now measured nodes s =
        let cache = evict_tick now s.books.cache in
        let (out, pend) = due now s.pend in
        let (nodes', s') = serve_nodes 0 now measured nodes (record s {
          books = record s.books { cache = cache };
          pend = pend;
          queue = push_all out s.queue;
        }) in
        (nodes', record s' { books = diagnose measured nodes' s'.books })

    -- The rounds from `it` on; the measurements count from `warm` on.
    unfoldable pub prepo_loop :
        ℕ → ℕ → ℕ → List PrepoNode → PrepoState W G → List PrepoNode × PrepoState W G
    unfolding round_step
    prepo_loop warm zero it nodes s = (nodes, s)
    prepo_loop warm (suc rounds) it nodes s =
        let (nodes', s') = round_step it (leb warm it) nodes s in
        prepo_loop warm rounds (it + 1) nodes' s'

    -- The population of the start: `n` fresh arrivals of round 0.
    unfoldable pub seed_queue : ℕ → PrepoState W G → PrepoState W G
    unfolding fresh_arrival push
    seed_queue zero s = s
    seed_queue (suc n) s =
        let (r, w) = fresh_arrival k.random k.turns k.sample_b k.edge_cutoff k.draws 0 s.workload in
        seed_queue n
          (record s { workload = w; queue = elim r [ none ↦ s.queue | some q ↦ push q s.queue ] })

    -- `while (!pp.done())`, by `pull_near`; `decode_count_target` as the fuel fills every slot.
    unfoldable pub fill_batch :
        Bool
        → ℕ
        → Preposition W
        → List BatchDecoder
        → PrepoState W G
        → List BatchDecoder × PrepoState W G
    unfolding next_ideal pull_near admit_ttft to_batch place
    fill_batch measured zero pp batch s = (batch, s)
    fill_batch measured (suc fuel) pp batch s = elim (done pp) [
      | true ↦ (batch, s)
      | false ↦
          let (r, queue) = pull_near (next_ideal pp) k.cap_room s.queue in
          elim r [
            | none ↦ (batch, record s { queue = queue })
            | some q ↦
                let (met, b) = admit_ttft k.deployment k.slo measured 0 q s.books in
                fill_batch measured fuel (place q.prompt pp) (batch ++ to_batch q met ∷ [])
                  (record s { queue = queue; books = b })
          ]
    ]

    unfoldable pub start_nodes : Bool → ℕ → PrepoState W G → List PrepoNode × PrepoState W G
    unfolding start fill_batch
    start_nodes measured zero s = ([], s)
    start_nodes measured (suc n) s =
        let op = k.deployment.op in
        let pp = start (d.of_int (pos 0)) 0 op in
        let (a, s1) = fill_batch measured op.decode_count_target pp [] s in
        let (b, s2) = fill_batch measured op.decode_count_target pp [] s1 in
        let (nodes, s3) = start_nodes measured n s2 in ((a, b) ∷ nodes, s3)
