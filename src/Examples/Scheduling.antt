-- ===== src/Examples/Scheduling.antt =====
-- The global queue, the cache and the cluster on small inputs.
use mathlib.Core.List.{Perm}
use puls_rfc.Prelude.{ℕ, ◌+◌, ◌≤◌, ◌≡◌, refl, some, List, [], ◌∷◌, arith, pos, negsuc, All}
use puls_rfc.Double.{Whole, whole_double, Whole-IsOrdered}
use puls_rfc.Queue.{Request, GlobalQueue, pull_slot, pull_near}
use puls_rfc.Queue.Pull
use puls_rfc.Queue.Pull.{IsSlotPull, IsNearPull}
use puls_rfc.Cache.{ClusterCache, CacheConfig, new_cache, on_complete, enforce_budget, peek, lookup}
use puls_rfc.Cache.Accounting
use puls_rfc.Cache.Accounting.{IsValid}
use puls_rfc.Cache.Answers
use puls_rfc.Cache.Answers.{IsLookup, IsAnswer}
use puls_rfc.Cluster.{ClusterNode, gate, cold_start}
use puls_rfc.Cluster.Gate
use puls_rfc.Cluster.Gate.{IsDescending, IsCalm, IsNeeded}
use puls_rfc.Cluster.Placement
use puls_rfc.Cluster.Placement.{IsWithin, IsSummed, population}
use puls_rfc.Examples.Point.{point}

abbrev turn : ℕ → ℕ → ℕ → Request
turn id prompt arrival = record {
  id = id;
  prompt = prompt;
  max_tokens = 10;
  cached_prefix = 0;
  arrival = arrival;
  turn = 0;
}

abbrev queue : GlobalQueue
queue = record { q = turn 1 100 5 ∷ turn 2 900 3 ∷ turn 3 120 30 ∷ []; age_cap = 20; forced = 0 }

-- Request 2 waits longest, and is forced though it is far from the ideal.
pull_slot-IsSlotPull_example : IsSlotPull Whole-IsOrdered (pos 110) (pos 200) 40 queue (
  some (turn 2 900 3),
  record { q = turn 1 100 5 ∷ turn 3 120 30 ∷ []; age_cap = 20; forced = 1 },
)
unfolding pull_slot
pull_slot-IsSlotPull_example =
    Pull.pull_slot-IsSlotPull Whole-IsOrdered (pos 110) (pos 200) 40 queue

pull_near-IsNearPull_example : IsNearPull Whole-IsOrdered (pos 118) (pos 200) queue (
  some (turn 3 120 30),
  record { q = turn 1 100 5 ∷ turn 2 900 3 ∷ []; age_cap = 20; forced = 0 },
)
unfolding pull_near
pull_near-IsNearPull_example = Pull.pull_near-IsNearPull Whole-IsOrdered (pos 118) (pos 200) queue

abbrev config : CacheConfig Whole
config = record {
  eligibility_threshold = 10;
  evict_age = 5;
  gone_age = 50;
  offload_bw_bytes_per_round = pos 4;
}

abbrev empty : ClusterCache Whole
empty = new_cache 100 2 config

empty-IsValid : IsValid empty
empty-IsValid = Accounting.new_cache-IsValid 100 2 config

abbrev one_turn : ClusterCache Whole
one_turn = on_complete 0 7 20 1 empty

on_complete-IsValid_example : IsValid one_turn
on_complete-IsValid_example = Accounting.on_complete-IsValid 0 7 20 1 empty empty-IsValid

abbrev other : ℕ
other = 8

-- The id is completed again: the bytes of its earlier turn are given back.
abbrev second_turn : ClusterCache Whole
second_turn = on_complete 0 7 40 2 one_turn

peek-on_complete_example :
    ((peek 7 second_turn).node ≡ some 0)
    × IsAnswer 0 7 40 one_turn (peek 7 second_turn).result
    × (peek other second_turn ≡ peek other one_turn)
peek-on_complete_example =
    Answers.peek-on_complete 0 7 40 2 one_turn other on_complete-IsValid_example (omega arith)

lookup-IsLookup_example : IsLookup 7 one_turn (lookup 7 3 one_turn)
lookup-IsLookup_example = Answers.lookup-IsLookup 7 3 one_turn on_complete-IsValid_example

enforce_budget-IsValid_example :
    let c' = enforce_budget 0 (negsuc 3) one_turn in
    IsValid c' × (c'.node_used 0 ≤ 0) × (c'.node_used 1 ≡ one_turn.node_used 1)
enforce_budget-IsValid_example =
    Accounting.enforce_budget-IsValid 0 (negsuc 3) one_turn 1 on_complete-IsValid_example
      (omega arith)

abbrev draw : List ℕ
draw = 90 ∷ 400 ∷ 100 ∷ 120 ∷ []

gate_lem_example :
    Perm draw (400 ∷ 120 ∷ 100 ∷ 90 ∷ [])
    × IsDescending (400 ∷ 120 ∷ 100 ∷ 90 ∷ [])
    × IsCalm point (120 ∷ 100 ∷ 90 ∷ [])
    × IsNeeded point (400 ∷ []) (120 ∷ 100 ∷ 90 ∷ [])
unfolding gate
gate_lem_example = Gate.gate_lem point draw

abbrev bare : ClusterNode
bare = record { lengths = []; total = 0 }

bare-IsWithin : IsWithin point bare
bare-IsWithin = omega arith

cold_start_lem_example :
    let r = cold_start point (λ xs. xs) draw (bare ∷ bare ∷ []) in
    All (IsWithin point) r.0 × (population r.0 + r.1 ≡ 4)
cold_start_lem_example =
    Placement.cold_start_lem point Whole-IsOrdered (λ xs. xs) draw (bare ∷ bare ∷ []) refl
      (bare-IsWithin, (bare-IsWithin, tt))
