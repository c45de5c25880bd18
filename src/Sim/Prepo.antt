-- ===== src/Sim/Prepo.antt =====
-- The pre-positioning driver (puls-engine/sim/prepo.cpp): one batch of a node, the rounds and the cold
-- start.
pub mod Round
pub mod Population
use puls_rfc.Prelude.{
  ℕ, ◌+◌, ◌≤◌, ◌≡◌, ◌≢◌, refl, inl, inr, Bool, none, some, List, [], ◌∷◌, map, pos, leb, arith,
  length, length-append, length-map, Bool-cases, Option-cases, sum_by, if◌then◌else◌,
}
use puls_rfc.Double.{Double, IsOrdered}
use puls_rfc.Queue.{Request, GlobalQueue, push}
use puls_rfc.Cache.{on_complete}
use puls_rfc.Sim.Pending.{PendingReturns, add, length-add}
use puls_rfc.Sim.Metrics.{record_batch}
use puls_rfc.Sim.Kpi.{record_mubatch, total}
use puls_rfc.Sim.Ttft.{Books, admit_ttft}
use puls_rfc.Sim.Preposition.{BatchDecoder, refill}
use puls_rfc.Sim.Refill.{refill_lem}
use puls_rfc.Sim.Workload.{MultiTurnWorkload, maybe_return, fresh_arrival}
use puls_rfc.Sim.Csched.{Knobs}

abbrev pub batch_kv : BatchDecoder → ℕ
batch_kv q = q.prompt + q.dec

pub record PrepoState (W G : Type 0) : Type 0 where
  pub queue : GlobalQueue
  pub pend : PendingReturns
  pub workload : MultiTurnWorkload G
  pub books : Books W

abbrev pub returning : ℕ → BatchDecoder → Request
returning now q = record {
  id = q.id;
  prompt = q.prompt;
  max_tokens = q.max_tokens;
  cached_prefix = q.cached_prefix;
  arrival = now;
  turn = q.turn;
}

module _ {W : Type 0} ⦃d : Double W⦄ {G : Type 0} (k : Knobs W G) (z now : ℕ)
    (measured : Bool) where
  unfoldable pub finish : BatchDecoder → PrepoState W G → PrepoState W G
  unfolding on_complete maybe_return fresh_arrival push add
  finish q s =
      let books = record s.books {
        cache = on_complete z q.id (q.prompt + q.dec) now s.books.cache;
      } in
      let (ret, w) = maybe_return k.random k.turns (returning now q) now s.workload in
      let kept = record s { books = books } in
      elim ret [
        | some (round, next) ↦ record kept { pend = add round next s.pend; workload = w }
        | none ↦
            let (fresh, w') =
              fresh_arrival k.random k.turns k.sample_b k.edge_cutoff k.draws now w in
            elim fresh [
              | some r ↦ record kept { queue = push r s.queue; workload = w' }
              | none ↦ record kept { workload = w' }
            ]
      ]

  -- The survivors.
  unfoldable pub retire_batch :
      List BatchDecoder → PrepoState W G → List BatchDecoder × PrepoState W G
  unfolding finish
  retire_batch [] s = ([], s)
  retire_batch (q ∷ qs) s =
      let finished = leb q.max_tokens q.dec in
      let (survivors, s') = retire_batch qs (if finished then finish q s else s) in
      if finished then (survivors, s') else (q ∷ survivors, s')

  unfoldable pub record_step : List BatchDecoder → Bool → Books W → Books W
  unfolding record_batch record_mubatch
  record_step batch b2 b =
      let sum_kv = sum_by batch_kv batch in
      let metc = sum_by (λ (q : BatchDecoder). if q.met_ttft then 1 else 0) batch in
      if measured
      then record b {
        metrics = record_batch (length batch) sum_kv k.deployment.op b2 b.metrics;
        kpi = record_mubatch (length batch) sum_kv metc k.deployment k.slo k.beta b.kpi;
      }
      else b

  unfoldable pub step : List BatchDecoder → List BatchDecoder
  step batch = map (λ (q : BatchDecoder). record q { dec = q.dec + 1 }) batch

  -- Record, decode, retire and refill one batch.
  unfoldable pub serve_batch :
      Bool → List BatchDecoder → PrepoState W G → List BatchDecoder × PrepoState W G
  unfolding record_step step retire_batch refill admit_ttft total
  serve_batch b2 batch s =
      let b = record_step batch b2 s.books in
      let (survivors, s1) = retire_batch (step batch) (record s { books = b }) in
      let sum = total (d.of_int (pos 0)) (map (λ q. d.of_int (pos (batch_kv q))) survivors) in
      let (batch', g, b') =
        refill (admit_ttft k.deployment k.slo measured now) k.cap_room now k.deployment.op sum
          survivors s1.queue s1.books in
      (batch', record s1 { queue = g; books = b' })

  abbrev pub population : List BatchDecoder × PrepoState W G → ℕ
  population (batch, s) = length batch + length s.queue.q + length s.pend

  -- The sampler's draws suffice: an arrival never fails for want of a sample within the cutoff.
  abbrev pub Arrives : Type 0
  Arrives =
      (w : MultiTurnWorkload G)
      → (fresh_arrival k.random k.turns k.sample_b k.edge_cutoff k.draws now w).0 ≢ none

  finish-population :
      (q : BatchDecoder) (qs : List BatchDecoder) (s : PrepoState W G)
      → Arrives
      → population (qs, finish q s) ≡ population (qs, s) + 1
  unfolding finish push
  finish-population q qs s arrives =
      let ret = maybe_return k.random k.turns (returning now q) now s.workload in
      elim (Option-cases ret.0) [
        | inr ((round, next), e) ↦ rw (e, finish) (omega (arith, length-add round next s.pend))
        | inl e ↦
            elim (Option-cases
              (fresh_arrival k.random k.turns k.sample_b k.edge_cutoff k.draws now ret.1).0) [
                | inl dry ↦ absurd (arrives ret.1 dry)
                | inr (r, f) ↦ rw (e, f, finish) (omega (arith, length-append s.queue.q (r ∷ [])))
              ]
      ]

  retire_batch-population :
      (qs : List BatchDecoder) (s : PrepoState W G)
      → Arrives
      → (population (retire_batch qs s) ≡ population (qs, s))
        × (length (retire_batch qs s).0 ≤ length qs)
  unfolding retire_batch
  retire_batch-population [] s arrives = (refl, omega arith)
  retire_batch-population (q ∷ qs) s arrives = elim (Bool-cases (leb q.max_tokens q.dec)) [
    | inl finished ↦
        let (kept, fewer) = retire_batch-population qs (finish q s) arrives in
        rw (finished, retire_batch)
          (omega (arith, kept, finish-population q qs s arrives), omega (arith, fewer))
    | inr running ↦
        let (kept, fewer) = retire_batch-population qs s arrives in
        rw (running, retire_batch) (omega (arith, kept), omega (arith, fewer))
  ]

  -- Serving a batch of at most `decode_count_target`, with doubles in order and a sampler that always
  -- finds a length within the cutoff, keeps the population of the batch, the queue and the pending
  -- returns. The batch does not exceed `decode_count_target`.
  pub serve_batch-population :
      (b2 : Bool) (batch : List BatchDecoder) (s : PrepoState W G)
      → IsOrdered W
      → Arrives
      → length batch ≤ k.deployment.op.decode_count_target
      → (population (serve_batch b2 batch s) ≡ population (batch, s))
        × (length (serve_batch b2 batch s).0 ≤ k.deployment.op.decode_count_target)
  unfolding serve_batch step
  serve_batch-population b2 batch s laws arrives fits =
      let b = record_step batch b2 s.books in
      let r = retire_batch (step batch) (record s { books = b }) in
      let (kept, fewer) = retire_batch-population (step batch) (record s { books = b }) arrives in
      let sum =
        total (d.of_int (pos 0)) (map (λ (q : BatchDecoder). d.of_int (pos (batch_kv q))) r.0) in
      let same = length-map (λ (q : BatchDecoder). record q { dec = q.dec + 1 }) batch in
      let r' =
        refill_lem laws k.cap_room now (admit_ttft k.deployment k.slo measured now) k.deployment.op
          sum r.0 r.1.queue r.1.books (omega (arith, fewer, same)) in
      (
        omega (arith, kept, r'.counted, same),
        elim r'.filled [ inl full ↦ omega (arith, full) | inr short ↦ omega (arith, short.0) ],
      )
