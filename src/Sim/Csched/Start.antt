-- ===== src/Sim/Csched/Start.antt =====
-- The cold start of puls-engine/sim/csched.cpp. `draw` is one raw output of the generator.
use puls_rfc.Prelude.{
  ℕ, zero, suc, ◌+◌, ◌-◌, ◌%◌, false, none, some, List, [], ◌∷◌, pos, pos_part, length, get_elem?,
}
use puls_rfc.Double.{Double}
use puls_rfc.Cluster.{ClusterNode}
use puls_rfc.Queue.{Request, push, pull_slot}
use puls_rfc.Sim.Workload.{fresh_arrival}
use puls_rfc.Sim.Csched.State.{SimDecoder, Knobs, Shared, CschedNode}
use puls_rfc.Sim.Csched.Defs.{admit_ttft, admit_to}

-- The request of a cold-start decoder: a first turn of round 0.
abbrev pub first_turn : ℕ → ℕ → ℕ → Request
first_turn id prompt dtot = record {
  id = id;
  prompt = prompt;
  max_tokens = dtot;
  cached_prefix = 0;
  arrival = 0;
  turn = 0;
}

module _ {W : Type 0} ⦃d : Double W⦄ {G : Type 0} (k : Knobs W G) where
  -- The backlog of the start: `n` fresh arrivals of round 0.
  unfoldable pub seed_queue : ℕ → Shared W G → Shared W G
  unfolding fresh_arrival push
  seed_queue zero s = s
  seed_queue (suc n) s =
      let (r, w) = fresh_arrival k.random k.turns k.sample_b k.edge_cutoff k.draws 0 s.workload in
      seed_queue n
        (record s { workload = w; queue = elim r [ none ↦ s.queue | some q ↦ push q s.queue ] })

  module _ (draw : G → ℕ × G) where
    -- The lengths placed on node `z`, up to `n` of them; the ids count up from `id`.
    unfoldable pub seed_pool :
        ℕ → ℕ → List ℕ → ℕ → List SimDecoder → G → Shared W G → ℕ × List SimDecoder × G × Shared W G
    unfolding admit_ttft admit_to
    seed_pool z (suc n) (prompt ∷ lengths) id pool g s =
        let (dtot, g') = k.random.uniform_int k.turns.dtot_lo k.turns.dtot_hi g in
        let r = first_turn id prompt dtot in
        let (met, s') = admit_ttft k z 0 false r s in
        seed_pool z n lengths (id + 1) (admit_to r met pool) g' s'
    seed_pool z _ _ id pool g s = (id, pool, g, s)

    abbrev random_hole : List SimDecoder → G → ℕ × G
    random_hole [] g = (pos_part (d.trunc k.deployment.op.ctx_balance), g)
    random_hole (q ∷ qs) g =
        let (x, g') = draw g in
        (
          elim (get_elem? (q ∷ qs) (x % length (q ∷ qs))) [ none ↦ q.prompt | some r ↦ r.prompt ],
          g',
        )

    -- `while (pool.size() < decode_pool)`, with a random resident's length as the hole.
    unfoldable pub top_up :
        ℕ → ℕ → List SimDecoder → G → Shared W G → List SimDecoder × G × Shared W G
    unfolding pull_slot admit_ttft admit_to
    top_up z zero pool g s = (pool, g, s)
    top_up z (suc n) pool g s =
        let (hole, g') = random_hole pool g in
        let (r, queue) = pull_slot (d.of_int (pos hole)) k.cap_room 0 s.queue in
        elim r [
          | none ↦ (pool, g', record s { queue = queue })
          | some q ↦
              let (met, s') = admit_ttft k z 0 false q (record s { queue = queue }) in
              top_up z n (admit_to q met pool) g' s'
        ]

    unfoldable pub start_nodes :
        ℕ → List ClusterNode → ℕ → G → Shared W G → List CschedNode × G × Shared W G
    unfolding seed_pool top_up
    start_nodes z [] id g s = ([], g, s)
    start_nodes z (nd ∷ nodes) id g s =
        let full = k.deployment.op.decode_pool in
        let (id', pool, g1, s1) = seed_pool z full nd.lengths id [] g s in
        let (pool', g2, s2) = top_up z (full - length pool) pool g1 s1 in
        let (rest, g3, s3) = start_nodes (suc z) nodes id' g2 s2 in
        (record { pool = pool'; aff = [] } ∷ rest, g3, s3)
