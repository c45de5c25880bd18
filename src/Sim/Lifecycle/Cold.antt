-- ===== src/Sim/Lifecycle/Cold.antt =====
-- The decode pools that the cold start of puls-engine/sim/lifecycle.cpp fills, and its counters.
use puls_rfc.Prelude.{
  ℕ, zero, suc, ◌+◌, ◌-◌, ◌≤◌, ◌≡◌, refl, Option, none, some, List, [], ◌∷◌, ◌++◌, arith, length,
  All, length-append, sum_by, ◌∙◌,
}
use puls_rfc.Double.{Double}
use puls_rfc.OperatingPoint.{OperatingPoint}
use puls_rfc.RequestSource.{RequestSource}
use puls_rfc.Cluster.{ClusterNode}
use puls_rfc.Sim.Workload.{cls}
use puls_rfc.Sim.Lifecycle.Decode.{SimDecoder, Tally, new_decoder, admit_hole}
use puls_rfc.Sim.Lifecycle.Defs.{Samplers, sample_dtot}
use puls_rfc.Sim.Lifecycle.Loop.{count_admit, seed_decoders, random_hole, top_up, start_node}
use puls_rfc.Sim.Lifecycle.Start.{start_decoders}
use puls_rfc.Sim.Lifecycle.Balance.{total, total-count_cls, Admits, admit_hole-Admits}

-- Each decoder added to the pool is counted once, and nothing is completed.
pub record IsCounted (pool : List SimDecoder) (t : Tally) (pool' : List SimDecoder) (t' : Tally)
    : Type 0 where
  pub admitted : total t'.admit_cls + length pool ≡ total t.admit_cls + length pool'
  pub completions : t'.completions ≡ t.completions
  pub completed : total t'.comp_cls ≡ total t.comp_cls

one_more :
    (prompt : ℕ) (pool pool1 pool' : List SimDecoder) (t t' : Tally)
    → length pool1 ≡ length pool + 1
    → IsCounted pool1 (count_admit prompt t) pool' t'
    → IsCounted pool t pool' t'
one_more prompt pool pool1 pool' t t' more c = record {
  admitted = omega (arith, more, c.admitted, total-count_cls (cls prompt) t.admit_cls);
  completions = c.completions;
  completed = c.completed;
}

module _ {W : Type 0} ⦃d : Double W⦄ {G : Type 0} (k : Samplers W G) (op : OperatingPoint W) where
  seed_decoders-IsCounted :
      (n : ℕ) (lengths : List ℕ) (pool : List SimDecoder) (g : G) (t : Tally)
      → (let (pool', g', t') = seed_decoders k op n lengths pool g t in
          IsCounted pool t pool' t' × (length pool' ≤ length pool + n))
  unfolding seed_decoders
  seed_decoders-IsCounted zero lengths pool g t =
      (record { admitted = refl; completions = refl; completed = refl }, omega arith)
  seed_decoders-IsCounted (suc n) [] pool g t =
      (record { admitted = refl; completions = refl; completed = refl }, omega arith)
  seed_decoders-IsCounted (suc n) (prompt ∷ lengths) pool g t =
      let (dtot, g') = sample_dtot k g in
      let q = new_decoder prompt dtot in
      let more = length-append pool (q ∷ []) in
      let (c, most) =
        seed_decoders-IsCounted n lengths (pool ++ q ∷ []) g' (count_admit prompt t) in
      (
        one_more prompt pool (pool ++ q ∷ []) _ t _ (omega (arith, more)) c,
        omega (arith, more, most),
      )

  module _ {S : Type 0} (src : RequestSource W S) where
    top_up-IsCounted :
        (n : ℕ) (pool : List SimDecoder) (s : S) (g : G) (t : Tally)
        → (let (pool', s', g', t') = top_up k op src n pool s g t in
            IsCounted pool t pool' t' × (length pool' ≤ length pool + n))
    unfolding top_up
    top_up-IsCounted zero pool s g t =
        (record { admitted = refl; completions = refl; completed = refl }, omega arith)
    top_up-IsCounted (suc n) pool s g t =
        let (hole, g1) = random_hole k op pool g in
        go g1 (admit_hole op src hole pool s) (admit_hole-Admits op src hole pool s)
          (top_up-IsCounted n)
      where
        go :
            (g1 : G) (r : Option ℕ × List SimDecoder × S)
            → Admits op src pool r
            → ((pool : List SimDecoder) (s : S) (g : G) (t : Tally)
                → (let (pool', s', g', t') = top_up k op src n pool s g t in
                    IsCounted pool t pool' t' × (length pool' ≤ length pool + n)))
            → (let (pool', s', g', t') : List SimDecoder × S × G × Tally = elim r.0 [
              | none ↦ (r.1, r.2, g1, t)
              | some prompt ↦ top_up k op src n r.1 r.2 g1 (count_admit prompt t)
            ] in
                IsCounted pool t pool' t' × (length pool' ≤ length pool + suc n))
        go g1 (none, pool', s') same rest = (
          record { admitted = omega (arith, same); completions = refl; completed = refl },
          omega (arith, same),
        )
        go g1 (some prompt, pool', s') more rest =
            let (c, most) = rest pool' s' g1 (count_admit prompt t) in
            (one_more prompt pool pool' _ t _ more c, omega (arith, more, most))

    start_node-IsCounted :
        (nd : ClusterNode) (s : S) (g : G) (t : Tally)
        → (let (pool', s', g', t') = start_node k op src nd s g t in
            IsCounted [] t pool' t' × (length pool' ≤ op.decode_pool))
    unfolding start_node
    start_node-IsCounted nd s g t =
        let (pool, g1, t1) = seed_decoders k op op.decode_pool nd.lengths [] g t in
        let (c, most) = seed_decoders-IsCounted op.decode_pool nd.lengths [] g t in
        let (c', most') = top_up-IsCounted (op.decode_pool - length pool) pool s g1 t1 in
        (
          record {
            admitted = omega (arith, c.admitted, c'.admitted);
            completions = c'.completions ∙ c.completions;
            completed = c'.completed ∙ c.completed;
          },
          omega (arith, most, most'),
        )

    abbrev pub IsWithin : List SimDecoder × S → Type 0
    IsWithin p = length p.0 ≤ op.decode_pool

    pub start_decoders-IsCounted :
        (nds : List ClusterNode) (own : List (S × G)) (t : Tally)
        → (let (pools, t') = start_decoders k op src nds own t in
            All IsWithin pools
            × (total t'.admit_cls ≡ total t.admit_cls + sum_by (λ p. length p.0) pools)
            × (t'.completions ≡ t.completions)
            × (total t'.comp_cls ≡ total t.comp_cls))
    unfolding start_decoders
    start_decoders-IsCounted [] own t = (tt, omega arith, refl, refl)
    start_decoders-IsCounted (nd ∷ nds) [] t = (tt, omega arith, refl, refl)
    start_decoders-IsCounted (nd ∷ nds) ((s, g) ∷ own) t =
        let (pool, s', g', t1) = start_node k op src nd s g t in
        let (c, most) = start_node-IsCounted nd s g t in
        let (within, sum, same, same') = start_decoders-IsCounted nds own t1 in
        ((most, within), omega (arith, sum, c.admitted), same ∙ c.completions, same' ∙ c.completed)
