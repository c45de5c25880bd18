-- ===== src/Runtime/WarmFill.antt =====
-- How `warm_fill` (puls-engine/runtime/runtime.cpp) ends, and what it moves.
use mathlib.Core.List.Perm
use mathlib.Core.List.{Perm}
use puls_rfc.Prelude.{
  ℕ, zero, suc, ◌+◌, ◌≤◌, ◌<◌, ◌≡◌, refl, ◌⊎◌, inl, inr, true, false, ◌&&◌, none, ltb, ◌==◌, length,
  arith, Bool-cases, subst, sym,
}
use puls_rfc.Double.{Double, IsOrdered}
use puls_rfc.OperatingPoint.{OperatingPoint}
use puls_rfc.Node.{NodeScheduler, admit_ideal, admit_centered, node_cap_room}
use puls_rfc.Runtime.Defs.{QueueSource, queue_pull_near, queue_source, warm_loop, warm_fill}
use puls_rfc.Runtime.Conserved.{requests}
use puls_rfc.Runtime.Moves.{pull_into-Moves}

module _ {W : Type 0} ⦃d : Double W⦄ (op : OperatingPoint W) where
  -- The pool is full, the queue is empty, or no waiting request fits the room.
  abbrev pub IsFilled : NodeScheduler QueueSource → Type 0
  IsFilled n =
      (op.decode_pool ≤ length n.pool)
      ⊎ (length n.source ≡ 0)
      ⊎ ((queue_pull_near (admit_ideal op n.pool) (node_cap_room op) n.source).0 ≡ none)

  module _ (laws : IsOrdered W) where
    abbrev Outcome : NodeScheduler QueueSource → NodeScheduler QueueSource → Type 0
    Outcome n n' =
        (length n'.pool + length n'.source ≡ length n.pool + length n.source)
        × (length n'.pool ≤ op.decode_pool)
        × IsFilled n'
        × Perm (requests n) (requests n')

    warm_loop_lem :
        (left : ℕ) (n : NodeScheduler QueueSource)
        → length n.source < left
        → length n.pool ≤ op.decode_pool
        → Outcome n (warm_loop op left n)
    unfolding warm_loop admit_centered
    warm_loop_lem zero n h fits = absurd (omega arith)
    warm_loop_lem (suc left) n h fits =
        elim (Bool-cases (ltb (length n.pool) op.decode_pool && ltb 0 (length n.source))) [
          | inl open_slot ↦ elim (pull_into-Moves laws op (admit_ideal op n.pool) n) [
            | inl (grew, shrank, all) ↦
                let n' = admit_centered op queue_source n in
                let moved : (length n'.pool == length n.pool) ≡ false = ground arith in
                let (kept, bound, filled, alls) =
                  warm_loop_lem left n' (omega arith) (ground arith) in
                rw (open_slot, warm_loop, moved) (omega arith, bound, filled, Perm.trans all alls)
            | inr (same, dry, _) ↦
                let n' = admit_centered op queue_source n in
                let stuck : (length n'.pool == length n.pool) ≡ true = rw same (ground arith) in
                rw (open_slot, warm_loop, stuck)
                  (subst (Outcome n) (sym same) (refl, fits, inr (inr dry), Perm.rfl))
          ]
          | inr closed ↦ rw (closed, warm_loop) (refl, fits, ground arith, Perm.rfl)
        ]

    -- From a pool of at most `decode_pool`, `warm_fill` moves requests from the queue into the pool
    -- and those that are resident or wait are the same ones as before; it does not fill the pool beyond
    -- `decode_pool`, and stops only at a full pool, at an empty queue or when no waiting request fits the
    -- room: its `guard` never runs out first.
    pub warm_fill_lem :
        (n : NodeScheduler QueueSource)
        → length n.pool ≤ op.decode_pool
        → let n' = warm_fill op n in
          (length n'.pool + length n'.source ≡ length n.pool + length n.source)
          × (length n'.pool ≤ op.decode_pool)
          × IsFilled n'
          × Perm (requests n) (requests n')
    unfolding warm_fill
    warm_fill_lem n fits = warm_loop_lem (op.decode_pool + length n.source + 4) n (omega arith) fits
