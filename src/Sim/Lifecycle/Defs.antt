-- ===== src/Sim/Lifecycle/Defs.antt =====
-- A node's round of puls-engine/sim/lifecycle.cpp, the loop over nodes and rounds, and the cold
-- start. The generator is a parameter; `draw` is one raw output of it.
use puls_rfc.Prelude.{
  ℕ, zero, suc, ◌+◌, ◌-◌, true, false, Option, none, some, List, [], ◌∷◌, ◌++◌, ℤ, pos, pos_part,
  ltb_ℤ, length,
}
use puls_rfc.Double.{Double}
use puls_rfc.OperatingPoint.{OperatingPoint}
use puls_rfc.RequestSource.{RequestSource}
use puls_rfc.Sim.Workload.{Random}
use puls_rfc.Sim.Lifecycle.Prefill.{SimPrefill, prefill_batches, progress, hand_over}
use puls_rfc.Sim.Lifecycle.Decode.{Tally, decode_batches, decode_round}
use puls_rfc.Sim.Lifecycle.Measure.{LifeNode, Sums, note_prefill, note_decode, note_sizes}

-- The samplers, with the fuel of the repeated draw.
pub record Samplers (W G : Type 0) : Type 0 where
  pub random : Random W G
  pub draw : G → ℕ × G
  pub sample_b : G → ℕ × G
  pub edge_cutoff : ℤ
  pub draws : ℕ

module _ {W : Type 0} ⦃d : Double W⦄ {G : Type 0} (k : Samplers W G) where
  -- `256 + (int)(uni(rng) * 3840)`; the draw is not negative.
  unfoldable pub sample_dtot : G → ℕ × G
  sample_dtot g =
      let (u, g') = k.random.uniform_real g in
      (256 + pos_part (d.trunc (d.mul u (d.of_int (pos 3840)))), g')

  unfoldable pub gated_sample : ℕ → G → Option ℕ × G
  gated_sample zero g = (none, g)
  gated_sample (suc fuel) g =
      let (p, g') = k.sample_b g in
      elim (ltb_ℤ k.edge_cutoff (pos p)) [ true ↦ gated_sample fuel g' | false ↦ (some p, g') ]

  -- `n` new prefills at the end of the pool; fewer where the draws run out.
  unfoldable pub fresh_prefills : ℕ → List SimPrefill → G → List SimPrefill × G
  unfolding gated_sample sample_dtot
  fresh_prefills zero pf g = (pf, g)
  fresh_prefills (suc n) pf g =
      let (p, g1) = gated_sample k.draws g in
      elim p [
        | none ↦ (pf, g1)
        | some prompt ↦
            let (dtot, g2) = sample_dtot g1 in
            fresh_prefills n
              (pf ++ record { prompt = prompt; dtot = dtot; processed = 0; wait = 0 } ∷ []) g2
      ]

  -- `while (pf.size() < prefill_pool)`: each pass adds one.
  unfoldable pub keep_prefills : ℕ → List SimPrefill → G → List SimPrefill × G
  unfolding fresh_prefills
  keep_prefills prefill_pool pf g = fresh_prefills (prefill_pool - length pf) pf g

  module _ (op : OperatingPoint W) {S : Type 0} (src : RequestSource W S) where
    unfoldable pub life_round : LifeNode S → Tally → G → Sums W → LifeNode S × Tally × G × Sums W
    unfolding prefill_batches progress hand_over decode_batches decode_round keep_prefills
        note_prefill note_decode note_sizes
    life_round n t g r =
        let (one, two) = prefill_batches op n.pf in
        let r1 = note_prefill op n.pf (one, two) r in
        let (pf, ready) = hand_over (progress one.chunks two.chunks n.pf) n.ready in
        let batches = decode_batches op n.dec in
        let r2 = note_decode op n.dec batches r1 in
        let f =
          decode_round op src batches.2
            (record { pool = n.dec; ready = ready; source = n.source; tally = t }) in
        let (pf', g') = keep_prefills op.prefill_pool pf g in
        let n' : LifeNode S = record {
          dec = f.pool;
          pf = pf';
          ready = f.ready;
          source = f.source;
        } in
        (n', f.tally, g', note_sizes n' r2)

    unfoldable pub serve_nodes :
        List (LifeNode S) → Tally → G → Sums W → List (LifeNode S) × Tally × G × Sums W
    unfolding life_round
    serve_nodes [] t g r = ([], t, g, r)
    serve_nodes (n ∷ ns) t g r =
        let (n', t1, g1, r1) = life_round n t g r in
        let (ns', t2, g2, r2) = serve_nodes ns t1 g1 r1 in (n' ∷ ns', t2, g2, r2)
