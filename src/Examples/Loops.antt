-- ===== src/Examples/Loops.antt =====
-- The main loops of the drivers, over a few rounds of a small cluster.
use puls_rfc.Prelude.{ℕ, ◌≡◌, ◌≢◌, none, refl, true, false, List, [], ◌∷◌, length, arith}
use puls_rfc.Double.{Whole, whole_double, Whole-IsOrdered}
use puls_rfc.Cache.{ClusterCache, new_cache}
use puls_rfc.Cache.Nodes.{on_complete-IsLocal}
use puls_rfc.Sim.Ttft.{Books}
use puls_rfc.Sim.Workload.{MultiTurnWorkload, fresh_arrival, gated_sample}
use puls_rfc.Sim.Baseline.Defs.{SimDecoder, BaseState}
use puls_rfc.Sim.Baseline.Round.{round_step, base_loop}
use puls_rfc.Sim.Baseline.Population
use puls_rfc.Sim.Baseline.Hitless
use puls_rfc.Sim.Baseline.Hitless.{IsHitless}
use puls_rfc.Sim.Csched.Round.{csched_loop}
use puls_rfc.Sim.Csched.Loop
use puls_rfc.Sim.Csched.Loop.{IsSound, everyone}
use puls_rfc.Sim.Prepo.Round.{PrepoNode, prepo_loop}
use puls_rfc.Sim.Prepo.Population as PrepoPopulation
use puls_rfc.Examples.Rounds.{knobs, shared, node, batch, prepo}
use puls_rfc.Examples.Simulation.{books, books-IsBooked, config, fresh, queued, pending, workload}

abbrev pub resident : ℕ → ℕ → SimDecoder
resident id dec = record {
  id = id;
  prompt = 90;
  max_tokens = 10;
  dec = dec;
  wait = 0;
  turn = 0;
  cached_prefix = 0;
  met_ttft = false;
}

-- Two nodes; one decoder is about to finish.
abbrev pools : List (List SimDecoder)
pools = (resident 11 9 ∷ resident 12 3 ∷ []) ∷ (resident 13 0 ∷ []) ∷ []

abbrev uncached : ClusterCache Whole
uncached = new_cache 100 1 (record config { eligibility_threshold = 1000 })

abbrev pub plain_books : Books Whole
plain_books = record books { cache = uncached }

abbrev base : BaseState Whole ℕ
base = record { queue = queued; pend = pending; workload = workload; books = plain_books }

arrives :
    (now : ℕ) (w : MultiTurnWorkload ℕ)
    → (fresh_arrival knobs.random knobs.turns knobs.sample_b knobs.edge_cutoff knobs.draws now w).0
      ≢ none
unfolding fresh_arrival gated_sample
arrives now w e = absurd (cc)

base_loop-population_example :
    Population.population knobs (base_loop knobs 1 3 0 pools base)
    ≡ Population.population knobs (pools, base)
base_loop-population_example =
    Population.base_loop-population knobs arrives Whole-IsOrdered 1 3 0 pools base

plain_books-IsHitless : IsHitless 1000 0 plain_books
unfolding new_cache
plain_books-IsHitless = record { off = record { threshold = refl; out = tt }; hits = refl }

round_step-IsHitless_example : IsHitless 1000 0 (round_step knobs 7 true pools base).1.books
round_step-IsHitless_example =
    Hitless.round_step-IsHitless knobs 1000 0 7 true pools base (omega arith) plain_books-IsHitless

shared-IsSound : IsSound 1 shared.books.cache
unfolding new_cache
shared-IsSound = record {
  valid = books-IsBooked.valid;
  local = on_complete-IsLocal 1 0 1 50 2 fresh (omega arith) tt;
}

csched_loop-IsRound_example :
    let (nodes', s') = csched_loop knobs 1 3 7 (node ∷ []) shared in
    (everyone (nodes', s') ≡ everyone (node ∷ [], shared))
    × (length nodes' ≡ 1)
    × IsSound 1 s'.books.cache
csched_loop-IsRound_example =
    Loop.csched_loop-IsRound knobs 1 Whole-IsOrdered arrives 1 3 7 (node ∷ []) shared refl
      shared-IsSound

abbrev prepo_nodes : List PrepoNode
prepo_nodes = (batch, []) ∷ []

prepo_loop-Keeps_example :
    let (nodes', s') = prepo_loop knobs 1 3 7 prepo_nodes prepo in
    (PrepoPopulation.everyone (nodes', s') ≡ PrepoPopulation.everyone (prepo_nodes, prepo))
    × PrepoPopulation.AreWithin 2 nodes'
prepo_loop-Keeps_example =
    PrepoPopulation.prepo_loop-Keeps knobs Whole-IsOrdered 1 3 7 prepo_nodes prepo arrives
      (omega arith)
