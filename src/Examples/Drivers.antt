-- ===== src/Examples/Drivers.antt =====
-- The analysis, the churn and the baseline's empty refill on small inputs.
use puls_rfc.Prelude.{
  ℕ, zero, suc, ◌≡◌, refl, none, true, sym, some-injective, List, [], ◌∷◌, All, arith, pos,
}
use puls_rfc.Double.{Whole, whole_double, Whole-IsOrdered}
use puls_rfc.Analysis.MaxModel.{grow_layers, sweep_boundary}
use puls_rfc.Analysis.Boundary
use puls_rfc.Analysis.Boundary.{StopsAt, IsLast}
use puls_rfc.Cluster.{ClusterNode}
use puls_rfc.Runtime.{queue_source}
use puls_rfc.Runtime.Queue.{queue_source-Fits}
use puls_rfc.Sim.Baseline.Defs.{SimDecoder, BaseState, heal}
use puls_rfc.Sim.Baseline.Round.{top_up}
use puls_rfc.Sim.Baseline.Dry
use puls_rfc.Sim.Churn
use puls_rfc.Sim.Churn.{Late, IsKept, churn_loop}
use puls_rfc.Examples.Point.{point, waiting}
use puls_rfc.Examples.Rounds.{knobs}
use puls_rfc.Examples.Simulation.{hardware, pending, workload}
use puls_rfc.Examples.Loops.{plain_books, resident}

sweep_boundary_lem_example :
    (stop : ℕ) × StopsAt hardware 4 16 grow_layers 8 8192 4000 stop
    × IsLast hardware 4 16 grow_layers 8 8192 stop (sweep_boundary hardware 4 16 grow_layers 8 8192)
sweep_boundary_lem_example = Boundary.sweep_boundary_lem hardware 4 16 grow_layers 8 8192

abbrev nodes : List ClusterNode
nodes =
    record { lengths = 100 ∷ 90 ∷ []; total = 190 } ∷ record { lengths = 70 ∷ []; total = 70 } ∷ []

abbrev no_late : Late Whole
no_late = record {
  l_in = pos 0;
  l_da = pos 0;
  l_dm = pos 0;
  l_o2 = pos 0;
  l_cm = pos 0;
  l_pull = pos 0;
  l_cmin = none;
  l_n = 0;
}

churn_loop-IsKept_example :
    All
      (IsKept knobs.random (pos 1) point queue_source 2)
      (churn_loop knobs.random (pos 1) point queue_source 1 3 0 nodes 7 waiting none no_late).0
churn_loop-IsKept_example =
    Churn.churn_loop-IsKept knobs.random (pos 1) point queue_source 2 1 3 0 nodes 7 waiting none
      no_late (queue_source-Fits Whole-IsOrdered)
      (
        record { summed = refl; footprint = omega arith; counted = omega arith },
        (record { summed = refl; footprint = omega arith; counted = omega arith }, tt),
      )

-- The only request left is larger than any node takes.
abbrev crowded : BaseState Whole ℕ
crowded = record {
  queue = record {
    q =
        record {
          id = 4;
          prompt = 2_000_000;
          max_tokens = 10;
          cached_prefix = 0;
          arrival = 0;
          turn = 0;
        }
        ∷ [];
    age_cap = 20;
    forced = 0;
  };
  pend = pending;
  workload = workload;
  books = plain_books;
}

abbrev pool : List SimDecoder
pool = resident 11 3 ∷ []

crowded-IsTooLarge : Dry.IsTooLarge knobs.cap_room crowded.queue
crowded-IsTooLarge zero y e = rw (sym (some-injective _ y e)) refl
crowded-IsTooLarge (suc j) y e = absurd (cc)

heal-dry_example :
    (heal knobs 7 true (90 ∷ 80 ∷ []) pool crowded ≡ (pool, crowded))
    × ((top_up knobs true (λ g. (g, g)) 5 pool 7 crowded).0 ≡ pool)
    × ((top_up knobs true (λ g. (g, g)) 5 pool 7 crowded).2 ≡ crowded)
heal-dry_example =
    Dry.heal-dry Whole-IsOrdered knobs 7 true (λ g. (g, g)) (90 ∷ 80 ∷ []) 5 pool 7 crowded
      crowded-IsTooLarge
