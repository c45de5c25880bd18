-- ===== src/Examples/Nodes.antt =====
-- A node fed from a queue of real requests.
use mathlib.Core.List.{Perm}
use puls_rfc.Prelude.{ℕ, ◌+◌, ◌≤◌, ◌<◌, ◌≡◌, refl, some, [], ◌∷◌, arith, pos, length, sum_by, inl}
use puls_rfc.Double.{Whole, whole_double, Whole-IsOrdered}
use puls_rfc.RequestSource.{RequestSource}
use puls_rfc.Node.{NodeScheduler, NodeDecoder}
use puls_rfc.Node.Population
use puls_rfc.Node.Starvation
use puls_rfc.Node.Starvation.{rounds}
use puls_rfc.Runtime.{QueueSource, queue_source, queue_pull_near, warm_fill, serve_rounds}
use puls_rfc.Runtime.Serving
use puls_rfc.Runtime.Serving.{IsServing}
use puls_rfc.Runtime.Conserved.{requests, IsConserved}
use puls_rfc.Runtime.Queue
use puls_rfc.Runtime.Queue.{IsPull}
use puls_rfc.Runtime.WarmFill
use puls_rfc.Runtime.WarmFill.{IsFilled}
use puls_rfc.Examples.Point.{point, resident, residents, request, waiting}

abbrev node : NodeScheduler QueueSource
node = record { source = waiting; pool = residents }

abbrev second_resident : NodeDecoder
second_resident = record { prompt = 120; dtot = 2; dec = 0; wait = 2 }

rounds-wait_bounded_example : second_resident.wait < 3 + 5
unfolding rounds queue_source
rounds-wait_bounded_example =
    Starvation.rounds-wait_bounded point Whole-IsOrdered queue_source 2 1 node second_resident
      (omega arith) (omega arith) (omega arith) refl

-- A source that always has the same request, and counts the calls.
abbrev endless : RequestSource Whole ℕ
endless = record { pull_near = λ ideal room n. (some (request 100 2), n + 1) }

abbrev fed : NodeScheduler ℕ
fed = record { source = 0; pool = residents }

abbrev left_over : QueueSource
left_over = request 70 2 ∷ request 5000 2 ∷ request 105 3 ∷ []

queue_pull_near-IsPull_example : IsPull (pos 97) (pos 200) waiting (some (request 95 1), left_over)
unfolding queue_pull_near
queue_pull_near-IsPull_example =
    Queue.queue_pull_near-IsPull (pos 97) (pos 200) Whole-IsOrdered waiting

abbrev cold : NodeScheduler QueueSource
cold = record { source = waiting; pool = [] }

abbrev filled : NodeScheduler QueueSource
filled = record {
  source = request 5000 2 ∷ [];
  pool = resident 105 3 ∷ resident 95 1 ∷ resident 70 2 ∷ [];
}

warm_fill_lem_example :
    (length filled.pool + length filled.source ≡ 0 + length cold.source)
    × (length filled.pool ≤ 5)
    × IsFilled point filled
    × Perm (requests cold) (requests filled)
unfolding warm_fill
warm_fill_lem_example = WarmFill.warm_fill_lem point Whole-IsOrdered cold (omega arith)

serve_rounds-IsServing_example :
    let (dones, n) = serve_rounds point 3 node in
    IsConserved (requests node) (sum_by (λ done. done) dones) n
    × (length n.pool ≤ length node.pool)
    × IsServing Whole-IsOrdered point n
serve_rounds-IsServing_example =
    Serving.serve_rounds-IsServing Whole-IsOrdered point 3 node (inl refl)
