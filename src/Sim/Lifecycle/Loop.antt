-- ===== src/Sim/Lifecycle/Loop.antt =====
-- The cold start of puls-engine/sim/lifecycle.cpp, its loop over the rounds, and what a round adds to
-- the totals.
use puls_rfc.Prelude.{
  ℕ, zero, suc, ◌+◌, ◌-◌, ◌%◌, Option, none, some, List, [], ◌∷◌, ◌++◌, pos_part, leb, length,
  get_elem?, if◌then◌else◌,
}
use puls_rfc.Double.{Double}
use puls_rfc.OperatingPoint.{OperatingPoint}
use puls_rfc.RequestSource.{RequestSource}
use puls_rfc.Cluster.{ClusterNode, gate, cold_start}
use puls_rfc.Sim.Workload.{cls}
use puls_rfc.Sim.Lifecycle.Prefill.{SimPrefill}
use puls_rfc.Sim.Lifecycle.Decode.{SimDecoder, Tally, new_decoder, count_cls, admit_hole}
use puls_rfc.Sim.Lifecycle.Measure.{LifeNode, Sums, no_sums, nat, worse}
use puls_rfc.Sim.Lifecycle.Defs.{Samplers, sample_dtot, gated_sample, serve_nodes}

-- The totals, the number of rounds in them, and the first round's decode hit, decode deviation and
-- prefill deviation.
pub record Totals (W : Type 0) : Type 0 where
  pub acc : Sums W
  pub n : ℕ
  pub early : Option (W × W × W)

abbrev pub count_admit : ℕ → Tally → Tally
count_admit prompt t = record t { admit_cls = count_cls (cls prompt) t.admit_cls }

module _ {W : Type 0} ⦃d : Double W⦄ where
  -- `acc += r / Z`, but the worst deviation is the larger, and the misses are added as they are.
  unfoldable pub accumulate : ℕ → Sums W → Sums W → Sums W
  accumulate z r acc =
      let plus : W → W → W = λ a x. d.add a (d.div x (nat z)) in
      record {
        dec_hit = plus acc.dec_hit r.dec_hit;
        dec_dev = plus acc.dec_dev r.dec_dev;
        pf_hit = plus acc.pf_hit r.pf_hit;
        pf_dev = plus acc.pf_dev r.pf_dev;
        pf1_hit = plus acc.pf1_hit r.pf1_hit;
        pf1_dev = plus acc.pf1_dev r.pf1_dev;
        pf2_hit = plus acc.pf2_hit r.pf2_hit;
        pf2_dev = plus acc.pf2_dev r.pf2_dev;
        dec_mean = plus acc.dec_mean r.dec_mean;
        dec_pool = plus acc.dec_pool r.dec_pool;
        ready = plus acc.ready r.ready;
        pf_pool = plus acc.pf_pool r.pf_pool;
        resid =
            (plus acc.resid.0 r.resid.0, plus acc.resid.1 r.resid.1, plus acc.resid.2 r.resid.2);
        aged_dec = plus acc.aged_dec r.aged_dec;
        aged_pf = plus acc.aged_pf r.aged_pf;
        dec_forced = plus acc.dec_forced r.dec_forced;
        dec_sel = plus acc.dec_sel r.dec_sel;
        max_dev = worse r.max_dev acc.max_dev;
        miss_dev_sum = d.add acc.miss_dev_sum r.miss_dev_sum;
        miss_count = acc.miss_count + r.miss_count;
        b1_cm = acc.b1_cm + r.b1_cm;
        b1_dm = acc.b1_dm + r.b1_dm;
        b2_cm = acc.b2_cm + r.b2_cm;
        b2_dm = acc.b2_dm + r.b2_dm;
      }

  unfoldable pub add_round : ℕ → Sums W → Totals W → Totals W
  unfolding accumulate
  add_round z r t =
      let per : W → W = λ x. d.div x (nat z) in
      record {
        acc = accumulate z r t.acc;
        n = t.n + 1;
        early = elim t.early [
          | none ↦ some (per r.dec_hit, per r.dec_dev, per r.pf_dev)
          | some e ↦ some e
        ];
      }

  module _ {G : Type 0} (k : Samplers W G) (op : OperatingPoint W) where
    -- The lengths that the cold start put on a node, up to `decode_pool` of them.
    unfoldable pub seed_decoders :
        ℕ → List ℕ → List SimDecoder → G → Tally → List SimDecoder × G × Tally
    unfolding sample_dtot cls
    seed_decoders (suc n) (prompt ∷ lengths) pool g t =
        let (dtot, g') = sample_dtot k g in
        seed_decoders n lengths (pool ++ new_decoder prompt dtot ∷ []) g' (count_admit prompt t)
    seed_decoders _ _ pool g t = (pool, g, t)

    unfoldable pub seed_prefills : ℕ → List SimPrefill → G → List SimPrefill × G
    unfolding sample_dtot gated_sample
    seed_prefills zero pf g = (pf, g)
    seed_prefills (suc n) pf g =
        let (p, g1) = gated_sample k k.draws g in
        elim p [
          | none ↦ (pf, g1)
          | some prompt ↦
              let (dtot, g2) = sample_dtot k g1 in
              let (u, g3) = k.random.uniform_real g2 in
              let processed = pos_part (d.trunc (d.mul u (nat prompt))) in
              seed_prefills n
                (pf
                  ++ record { prompt = prompt; dtot = dtot; processed = processed; wait = 0 } ∷ [])
                g3
        ]

    -- The length of a random resident, and the balanced context where the pool is empty.
    abbrev pub random_hole : List SimDecoder → G → ℕ × G
    random_hole [] g = (pos_part (d.trunc op.ctx_balance), g)
    random_hole (q ∷ qs) g =
        let (x, g') = k.draw g in
        (
          elim (get_elem? (q ∷ qs) (x % length (q ∷ qs))) [ none ↦ q.prompt | some r ↦ r.prompt ],
          g',
        )

    module _ {S : Type 0} (src : RequestSource W S) where
      -- `while (dec_pool.size() < decode_pool)`, with a random resident's length as the hole.
      unfoldable pub top_up : ℕ → List SimDecoder → S → G → Tally → List SimDecoder × S × G × Tally
      unfolding admit_hole cls
      top_up zero pool s g t = (pool, s, g, t)
      top_up (suc n) pool s g t =
          let (hole, g1) = random_hole pool g in
          let (p, pool', s') = admit_hole op src hole pool s in
          elim p [
            | none ↦ (pool', s', g1, t)
            | some prompt ↦ top_up n pool' s' g1 (count_admit prompt t)
          ]

      unfoldable pub start_node : ClusterNode → S → G → Tally → List SimDecoder × S × G × Tally
      unfolding seed_decoders top_up
      start_node nd s g t =
          let (pool, g1, t1) = seed_decoders op.decode_pool nd.lengths [] g t in
          top_up (op.decode_pool - length pool) pool s g1 t1

      -- The draw is gated, and what it keeps is placed on the nodes, which start empty.
      unfoldable pub cold_nodes : (List ℕ → List ℕ) → List ℕ → List ClusterNode → List ClusterNode
      unfolding gate cold_start
      cold_nodes shuffle draw nodes = (cold_start op shuffle (gate op draw).kept nodes).0

      -- The rounds from `it` on; the measurements count from `warm` on.
      unfoldable pub life_loop :
          ℕ
          → ℕ
          → ℕ
          → List (LifeNode S)
          → Tally
          → G
          → Totals W
          → List (LifeNode S) × Tally × G × Totals W
      unfolding serve_nodes add_round
      life_loop warm zero it nodes t g totals = (nodes, t, g, totals)
      life_loop warm (suc rounds) it nodes t g totals =
          let (nodes', t', g', r) = serve_nodes k op src nodes t g no_sums in
          life_loop warm rounds (it + 1) nodes' t' g'
            (if leb warm it then add_round (length nodes) r totals else totals)
