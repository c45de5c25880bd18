-- ===== src/Runtime/Demo.antt =====
-- The runs of `run_runtime_demo` in puls-engine/runtime/runtime.cpp: the queue it loads, the filling of
-- the pool and the rounds. Its printing is left out.
use puls_rfc.Prelude.{ℕ, zero, suc, ◌+◌, ◌*◌, ◌/◌, ◌%◌, List, [], ◌∷◌, pos_part}
use puls_rfc.Double.{Double}
use puls_rfc.OperatingPoint.{ModelSpec, HwSpec, OperatingPoint, default_options}
use puls_rfc.Derive.{derive_operating_point}
use puls_rfc.Node.{NodeScheduler, advance_round}
use puls_rfc.Runtime.Defs.{QueueSource, enqueue, queue_source, warm_fill}

-- The lengths `c / 2 + (k % 5) * (c / 4)`, from `k` on.
unfoldable pub demo_prompts : ℕ → ℕ → ℕ → List ℕ
demo_prompts c zero k = []
demo_prompts c (suc left) k = (c / 2 + k % 5 * (c / 4)) ∷ demo_prompts c left (k + 1)

-- Each prompt is queued with 1 or 2 tokens to generate.
unfoldable pub enqueue_all : List ℕ → ℕ → QueueSource → QueueSource
unfolding enqueue
enqueue_all [] k queue = queue
enqueue_all (prompt ∷ prompts) k queue =
    enqueue_all prompts (k + 1) (enqueue prompt (1 + k % 2) queue)

module _ {W : Type 0} ⦃d : Double W⦄ where
  -- The constructor of `PulsRuntime`: an empty queue and an empty pool.
  unfoldable pub new_runtime :
      ModelSpec → HwSpec W → ℕ → OperatingPoint W × NodeScheduler QueueSource
  unfolding default_options
  new_runtime model hw prefill_tokens = (
    derive_operating_point model hw prefill_tokens default_options,
    record { source = []; pool = [] },
  )

  -- The number of decoders that each round finishes, and the node at the end.
  unfoldable pub serve_rounds :
      OperatingPoint W → ℕ → NodeScheduler QueueSource → List ℕ × NodeScheduler QueueSource
  unfolding queue_source advance_round
  serve_rounds op zero n = ([], n)
  serve_rounds op (suc rounds) n =
      let (done, n1) = advance_round op queue_source n in
      let (dones, n2) = serve_rounds op rounds n1 in (done ∷ dones, n2)

  -- The runtime with the queue of the demo. The context is positive, so that the cast gives a natural
  -- number.
  unfoldable pub load_demo :
      OperatingPoint W → NodeScheduler QueueSource → NodeScheduler QueueSource
  unfolding demo_prompts enqueue_all
  load_demo op n =
      let c = pos_part (d.trunc op.ctx_balance) in
      record n { source = enqueue_all (demo_prompts c (op.decode_pool + 20) 0) 0 n.source }

  unfoldable pub run_runtime_demo : ModelSpec → HwSpec W → ℕ → List ℕ × NodeScheduler QueueSource
  unfolding new_runtime load_demo warm_fill serve_rounds
  run_runtime_demo model hw prefill_tokens =
      let (op, n) = new_runtime model hw prefill_tokens in
      serve_rounds op 2 (warm_fill op (load_demo op n))
