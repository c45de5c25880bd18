-- ===== src/Runtime/Defs.antt =====
-- `QueueSource` and `PulsRuntime` of puls-engine/runtime/runtime.cpp. The queue is a list.
use puls_rfc.Prelude.{
  ℕ, zero, suc, ◌+◌, Bool, true, false, not, ◌&&◌, Option, none, some, List, [], ◌∷◌, ◌++◌, ℤ, pos,
  ltb_ℤ, ltb, ◌==◌, length, remove_at,
}
use puls_rfc.Double.{Double}
use puls_rfc.OperatingPoint.{OperatingPoint}
use puls_rfc.RequestSource.{PulledRequest, RequestSource}
use puls_rfc.Scan.{scan}
use puls_rfc.Steering.{dist}
use puls_rfc.Node.{NodeScheduler, admit_centered}

-- `QueueSource`: the waiting requests.
abbrev pub QueueSource : Type 0
QueueSource = List PulledRequest

unfoldable pub enqueue : ℕ → ℕ → QueueSource → QueueSource
enqueue prompt dtot queue = queue ++ record { prompt = prompt; dtot = dtot } ∷ []

module _ {W : Type 0} ⦃d : Double W⦄ where
  -- `best < 0 || dev < best_dev`, among the requests that fit; the mark is `best_dev`, `none` at
  -- the start.
  abbrev pub queue_test : W → ℤ → Option W → PulledRequest → Bool
  queue_test ideal room best_dev r =
      not (ltb_ℤ room (pos r.prompt))
      && elim best_dev [ none ↦ true | some b ↦ d.lt (dist ideal r.prompt) b ]

  abbrev pub dev_mark : W → PulledRequest → Option W
  dev_mark ideal r = some (dist ideal r.prompt)

  unfoldable pub queue_pull_near : W → ℤ → QueueSource → Option PulledRequest × QueueSource
  unfolding scan
  queue_pull_near ideal room queue =
      elim (scan (queue_test ideal room) (dev_mark ideal) 0 none none queue) [
        | none ↦ (none, queue)
        | some (best, r) ↦ (some r, remove_at queue best)
      ]

  unfoldable pub queue_source : RequestSource W QueueSource
  unfolding queue_pull_near
  queue_source = record { pull_near = queue_pull_near }

  module _ (op : OperatingPoint W) where
    -- The loop of `warm_fill`, with `budget - guard` passes left. Its `break` leaves the state that
    -- `admit_centered` returned.
    unfoldable pub warm_loop : ℕ → NodeScheduler QueueSource → NodeScheduler QueueSource
    unfolding admit_centered queue_source
    warm_loop zero n = n
    warm_loop (suc left) n = elim (ltb (length n.pool) op.decode_pool && ltb 0 (length n.source)) [
      | false ↦ n
      | true ↦
          let n' = admit_centered op queue_source n in
          elim (length n'.pool == length n.pool) [ true ↦ n' | false ↦ warm_loop left n' ]
    ]

    -- `budget = decode_pool + waiting + 4`
    unfoldable pub warm_fill : NodeScheduler QueueSource → NodeScheduler QueueSource
    unfolding warm_loop
    warm_fill n = warm_loop (op.decode_pool + length n.source + 4) n
