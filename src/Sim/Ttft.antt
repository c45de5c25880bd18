-- ===== src/Sim/Ttft.antt =====
-- What the drivers book when a request is admitted: `admitTTFT` of puls-engine/sim/prepo.cpp. The
-- first turn pays for its whole prompt; a later turn pays by what the cache still holds.
use puls_rfc.Prelude.{
  ℕ, ◌+◌, ◌≡◌, inl, inr, Bool, true, false, [], ◌∷◌, ◌++◌, pos, sub_ℕ, ltb, arith, if◌then◌else◌,
  Bool-cases,
}
use puls_rfc.Double.{Double}
use puls_rfc.Queue.{Request}
use puls_rfc.Cache.{ClusterCache, CacheResult, hit, miss_reload, miss_recompute, Lookup, lookup}
use puls_rfc.Cache.Accounting.{IsValid}
use puls_rfc.Cache.Answers.{lookup-IsLookup}
use puls_rfc.Sim.Harness.{Deployment, round_us, prefill_us}
use puls_rfc.Sim.Metrics.{Metrics}
use puls_rfc.Sim.Kpi.{Slo, Kpi, record_ttft, IsTallied, record_ttft-IsTallied}

pub record Books (W : Type 0) : Type 0 where
  pub cache : ClusterCache W
  pub metrics : Metrics W
  pub kpi : Kpi W

module _ {W : Type 0} where
  -- The counter of a return, by the cache's answer.
  unfoldable pub count_return : CacheResult → Metrics W → Metrics W
  count_return hit k = record k { returns = k.returns + 1; hbm_hit = k.hbm_hit + 1 }
  count_return miss_reload k = record k { returns = k.returns + 1; ssd_reload = k.ssd_reload + 1 }
  count_return miss_recompute k = record k { returns = k.returns + 1; recompute = k.recompute + 1 }

module _ {W : Type 0} ⦃d : Double W⦄ (p : Deployment W) where
  -- `comp_us` of a later turn.
  unfoldable pub restart_us : Request → Lookup W → W
  unfolding round_us prefill_us
  restart_us req lk =
      let p2 = sub_ℕ req.prompt req.cached_prefix in
      elim lk.result [
        | hit ↦ prefill_us p p2
        | miss_reload ↦ d.add (prefill_us p p2) (d.mul lk.reload_cost (round_us p))
        | miss_recompute ↦ prefill_us p (pos req.prompt)
      ]

  unfoldable pub wait_us : ℕ → Request → W
  unfolding round_us
  wait_us now req = d.mul (d.of_int (sub_ℕ now req.arrival)) (round_us p)

  -- `it >= warm ? K.record_ttft(ttft, slo) : (ttft <= slo.t_ttft_us)`
  unfoldable pub book_ttft : Slo W → Bool → W → Books W → Bool × Books W
  unfolding record_ttft
  book_ttft slo measured ttft b =
      let (met, k) = record_ttft ttft slo b.kpi in
      if measured then (met, record b { kpi = k }) else (d.le ttft slo.t_ttft_us, b)

  -- `M.ttft.push_back`, the return's counter, and the time that the cache saved.
  unfoldable pub book_return : Bool → CacheResult → W → W → Books W → Books W
  unfolding count_return
  book_return measured result ttft saved b =
      let k = count_return result b.metrics in
      if measured
      then record b {
        metrics = record k {
          ttft = k.ttft ++ ttft ∷ [];
          saved_rounds = d.add k.saved_rounds saved;
        };
      }
      else b

  unfoldable pub admit_ttft : Slo W → Bool → ℕ → Request → Books W → Bool × Books W
  unfolding restart_us wait_us book_ttft book_return prefill_us lookup
  admit_ttft slo measured now req b =
      let full = prefill_us p (pos req.prompt) in
      if ltb 0 req.turn
      then (let (lk, c) = lookup req.id now b.cache in
          let comp = restart_us req lk in
          let ttft = d.add (wait_us now req) comp in
          let (met, b') = book_ttft slo measured ttft (record b { cache = c }) in
          (met, book_return measured lk.result ttft (d.sub full comp) b'))
      else book_ttft slo measured (d.add (wait_us now req) full) b

-- Every return is a hit, a reload or a recomputation; the cache's accounts and the tally are valid.
pub record IsBooked {W : Type 0} (b : Books W) : Type 0 where
  pub classed : b.metrics.hbm_hit + b.metrics.ssd_reload + b.metrics.recompute ≡ b.metrics.returns
  pub valid : IsValid b.cache
  pub tallied : IsTallied b.kpi

module _ {W : Type 0} ⦃d : Double W⦄ (p : Deployment W) where
  book_ttft-IsBooked :
      (slo : Slo W) (measured : Bool) (ttft : W) (b : Books W)
      → IsBooked b
      → IsBooked (book_ttft p slo measured ttft b).1
  unfolding book_ttft
  book_ttft-IsBooked slo true ttft b v = record {
    classed = v.classed;
    valid = v.valid;
    tallied = (record_ttft-IsTallied ttft slo b.kpi v.tallied).0;
  }
  book_ttft-IsBooked slo false ttft b v = v

  book_return-IsBooked :
      (measured : Bool) (result : CacheResult) (ttft saved : W) (b : Books W)
      → IsBooked b
      → IsBooked (book_return p measured result ttft saved b)
  unfolding book_return count_return
  book_return-IsBooked false result ttft saved b v = v
  book_return-IsBooked true hit ttft saved b v = record {
    classed = omega (arith, v.classed);
    valid = v.valid;
    tallied = v.tallied;
  }
  book_return-IsBooked true miss_reload ttft saved b v = record {
    classed = omega (arith, v.classed);
    valid = v.valid;
    tallied = v.tallied;
  }
  book_return-IsBooked true miss_recompute ttft saved b v = record {
    classed = omega (arith, v.classed);
    valid = v.valid;
    tallied = v.tallied;
  }

  -- Admitting a request keeps the books: the measured returns are the hits, reloads and
  -- recomputations, the cache's byte accounts are exact and within budget, and the tally holds.
  pub admit_ttft-IsBooked :
      (slo : Slo W) (measured : Bool) (now : ℕ) (req : Request) (b : Books W)
      → IsBooked b
      → IsBooked (admit_ttft p slo measured now req b).1
  unfolding admit_ttft
  admit_ttft-IsBooked slo measured now req b v = elim (Bool-cases (ltb 0 req.turn)) [
    | inl later ↦
        let r = lookup req.id now b.cache in
        let looked : Books W = record b { cache = r.1 } in
        let comp = restart_us p req r.0 in
        let ttft = d.add (wait_us p now req) comp in
        rw (later, admit_ttft)
          (book_return-IsBooked measured r.0.result ttft
            (d.sub (prefill_us p (pos req.prompt)) comp) (book_ttft p slo measured ttft looked).1
            (book_ttft-IsBooked slo measured ttft looked (record {
              classed = v.classed;
              valid = (lookup-IsLookup req.id now b.cache v.valid).valid;
              tallied = v.tallied;
            })))
    | inr first ↦
        rw (first, admit_ttft)
          (book_ttft-IsBooked slo measured
            (d.add (wait_us p now req) (prefill_us p (pos req.prompt))) b v)
  ]
