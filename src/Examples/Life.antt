-- ===== src/Examples/Life.antt =====
-- The lifecycle simulator on small nodes.
use puls_rfc.Prelude.{
  ℕ, zero, suc, ◌+◌, ◌≤◌, ◌≡◌, refl, inr, arith, Option, none, some, List, [], ◌∷◌, pos, sum_by,
  All, length,
}
use puls_rfc.Double.{Whole, whole_double, Whole-IsOrdered}
use puls_rfc.RequestSource.{RequestSource, PulledRequest}
use puls_rfc.Node.{advance_round}
use puls_rfc.Sim.Lifecycle.Prefill.{SimPrefill, prefill_batches}
use puls_rfc.Sim.Lifecycle.Decode.{SimDecoder, Tally, decode_batches, decode_round}
use puls_rfc.Sim.Lifecycle.Agrees
use puls_rfc.Sim.Lifecycle.Agrees.{StaysDry, as_scheduler, unready}
use puls_rfc.Sim.Lifecycle.Measure.{LifeNode, no_sums}
use puls_rfc.Sim.Lifecycle.Defs.{Samplers, gated_sample}
use puls_rfc.Sim.Lifecycle.Loop.{Totals, life_loop}
use puls_rfc.Sim.Lifecycle.Disjoint
use puls_rfc.Sim.Lifecycle.Disjoint.{AreDisjoint}
use puls_rfc.Sim.Lifecycle.Health
use puls_rfc.Sim.Lifecycle.Health.{IsHealthy, IsTallied, IsSupplied}
use puls_rfc.Sim.Lifecycle.Start.{life}
use puls_rfc.Sim.Lifecycle.Life
use puls_rfc.Sim.Lifecycle.Life.{IsFraction}
use puls_rfc.Examples.Point.{point, request}
use puls_rfc.Examples.Steering.{prefills-InRange}
use puls_rfc.Examples.Simulation.{upper}

abbrev decoder : ℕ → ℕ → ℕ → SimDecoder
decoder prompt dtot wait = record { prompt = prompt; dtot = dtot; dec = 0; wait = wait }

-- Two of the decoders finish in their first batch.
abbrev pool : List SimDecoder
pool = decoder 90 1 0 ∷ decoder 100 2 3 ∷ decoder 110 1 4 ∷ decoder 80 3 0 ∷ decoder 120 2 1 ∷ []

-- A source of `n` requests, which is dry after them.
abbrev few : RequestSource Whole ℕ
few = record { pull_near = λ ideal room n. next n }
  where
    next : ℕ → Option PulledRequest × ℕ
    next zero = (none, zero)
    next (suc n) = (some (request 100 2), n)

few-StaysDry : StaysDry point few
few-StaysDry room ideal ideal' zero dry = refl
few-StaysDry room ideal ideal' (suc n) dry = absurd (cc)

abbrev tally : Tally
tally = record { transitions = 0; completions = 0; admit_cls = (5, 0, 0); comp_cls = (0, 0, 0) }

decode_round-advance_round_example :
    let f = decode_round point few (decode_batches point pool).2 (unready point few pool 1 tally) in
    let (done, n) = advance_round point few (as_scheduler (unready point few pool 1 tally)) in
    (as_scheduler f ≡ n) × (f.ready ≡ []) × (f.tally.completions ≡ 0 + done)
decode_round-advance_round_example =
    Agrees.decode_round-advance_round point few pool 1 tally few-StaysDry

abbrev prefill : ℕ → ℕ → ℕ → SimPrefill
prefill prompt processed wait = record {
  prompt = prompt;
  dtot = 300;
  processed = processed;
  wait = wait;
}

abbrev prefills : List SimPrefill
prefills = prefill 10 9 0 ∷ prefill 20 5 3 ∷ prefill 30 12 1 ∷ []

prefill_batches-AreDisjoint_example :
    let (one, two) = prefill_batches point prefills in
    AreDisjoint prefills one.chunks two.chunks
    × (sum_by (λ c. c) one.chunks ≤ 4)
    × (sum_by (λ c. c) two.chunks ≤ 4)
prefill_batches-AreDisjoint_example =
    Disjoint.prefill_batches-AreDisjoint point Whole-IsOrdered 40 prefills prefills-InRange
      (omega arith)

abbrev samplers : Samplers Whole ℕ
samplers = record {
  random = upper;
  draw = λ g. (g, g + 1);
  sample_b = λ g. (30, g + 1);
  edge_cutoff = pos 35;
  draws = 1;
}

samplers-IsSupplied : IsSupplied samplers 40
unfolding gated_sample
samplers-IsSupplied g = (30, refl, omega arith, omega arith)

abbrev node : LifeNode ℕ
node = record { dec = pool; pf = prefills; ready = prefill 25 25 0 ∷ []; source = 1 }

node-IsHealthy : IsHealthy point 40 node
node-IsHealthy = record {
  unfinished = omega arith;
  full = refl;
  finished = (refl, tt);
  fits = omega arith;
  backlog = inr refl;
}

abbrev totals : Totals Whole
totals = record { acc = no_sums; n = 0; early = none }

life_loop-IsHealthy_example :
    let (nodes', t', g', totals') = life_loop samplers point few 1 2 0 (node ∷ []) tally 0 totals in
    All (IsHealthy point 40) nodes' × IsTallied nodes' t'
life_loop-IsHealthy_example =
    Health.life_loop-IsHealthy samplers 40 point Whole-IsOrdered few 1 2 0 (node ∷ []) tally 0
      totals prefills-InRange samplers-IsSupplied (node-IsHealthy, tt)
      (record { admitted = refl; completed = refl })

samplers-IsFraction : IsFraction samplers point few
samplers-IsFraction g p positive = ground arith

life-IsHealthy_example :
    let (nodes, t, g, totals') =
      life samplers point few
        (λ xs. xs)
        (90 ∷ 400 ∷ 100 ∷ 120 ∷ [])
        1
        2
        ((2, 3) ∷ (9, 4) ∷ [])
        0
        totals in
    (length nodes ≡ 2) × All (IsHealthy point 40) nodes × IsTallied nodes t
life-IsHealthy_example =
    Life.life-IsHealthy samplers point few 40 samplers-IsSupplied samplers-IsFraction
      Whole-IsOrdered prefills-InRange (λ xs. xs) (90 ∷ 400 ∷ 100 ∷ 120 ∷ []) 1 2
      ((2, 3) ∷ (9, 4) ∷ []) 0 totals
