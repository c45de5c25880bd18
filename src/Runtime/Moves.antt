-- ===== src/Runtime/Moves.antt =====
-- What one pull from the runtime's queue does to a node and to the queue
-- (puls-engine/core/node_scheduler.cpp over puls-engine/runtime/runtime.cpp).
use mathlib.Core.List.{Perm}
use puls_rfc.Prelude.{
  ℕ, ◌+◌, ◌≡◌, refl, ◌⊎◌, inl, inr, true, Option, none, some, [], ◌∷◌, ℤ, pos, ltb_ℤ, get_elem?,
  length, length-append, arith, ap, ◌∙◌, Option-cases,
}
use puls_rfc.Double.{Double, IsOrdered}
use puls_rfc.OperatingPoint.{OperatingPoint}
use puls_rfc.RequestSource.{PulledRequest}
use puls_rfc.Scan.{scan, scan-some}
use puls_rfc.Node.{NodeScheduler, admitted, pull_into, node_cap_room}
use puls_rfc.Node.Pull.{pull_into-none, pull_into-some}
use puls_rfc.Runtime.Defs.{QueueSource, queue_test, dev_mark, queue_pull_near, queue_source}
use puls_rfc.Runtime.Conserved.{requests, grown-perm}
use puls_rfc.Runtime.Queue.{IsPull, queue_pull_near-IsPull, queue-IsSelection}

-- Every waiting request is too large for the room.
abbrev pub IsTooLarge : ℤ → QueueSource → Type 0
IsTooLarge room queue =
    (j : ℕ) (y : PulledRequest) → get_elem? queue j ≡ some y → ltb_ℤ room (pos y.prompt) ≡ true

module _ {W : Type 0} ⦃d : Double W⦄ (laws : IsOrdered W) where
  pub queue_pull_near-dry :
      (ideal : W) (room : ℤ) (queue : QueueSource)
      → IsTooLarge room queue
      → queue_pull_near ideal room queue ≡ (none, queue)
  unfolding queue_pull_near
  queue_pull_near-dry ideal room queue large =
      elim (Option-cases (scan (queue_test ideal room) (dev_mark ideal) 0 none none queue)) [
        | inl e ↦ rw (e, queue_pull_near) refl
        | inr (p, e) ↦
            let (at, test, best) =
              scan-some _ _ (queue-IsSelection laws ideal room) none queue p e in
            let too_large = large p.0 p.1 at in absurd (ground (arith, test, too_large))
      ]

  module _ (op : OperatingPoint W) (ideal : W) (n : NodeScheduler QueueSource) where
    -- One request moves from the queue into the pool, or nothing changes since none fits.
    abbrev pub Moves : NodeScheduler QueueSource → Type 0
    Moves n' =
        (length n'.pool ≡ length n.pool + 1)
          × (length n.source ≡ length n'.source + 1)
          × Perm (requests n) (requests n')
        ⊎ (n' ≡ n)
          × ((queue_pull_near ideal (node_cap_room op) n.source).0 ≡ none)
          × IsTooLarge (node_cap_room op) n.source

    pub pull_into-Moves : Moves (pull_into op queue_source ideal n)
    unfolding queue_source
    pull_into-Moves =
        let room = node_cap_room op in
        moves (queue_pull_near ideal room n.source) refl
          (queue_pull_near-IsPull ideal room laws n.source)
      where
        moves :
            (r : Option PulledRequest × QueueSource)
            → queue_pull_near ideal (node_cap_room op) n.source ≡ r
            → IsPull ideal (node_cap_room op) n.source r
            → Moves (pull_into op queue_source ideal n)
        moves (none, q) e p =
            let same : record { source = q; pool = n.pool } ≡ n =
              ap (λ s. record { source = s; pool = n.pool }) p.0 in
            inr (pull_into-none op queue_source ideal n e ∙ same, ap (λ r. r.0) e, p.1)
        moves (some r, q) e p = rw (pull_into-some op queue_source ideal n e) (
            inl (
              omega (arith, length-append n.pool (admitted r ∷ [])),
              p.1,
              grown-perm n.pool r n.source q p.0,
            ))
