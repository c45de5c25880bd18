-- ===== src/Runtime/Serving.antt =====
-- The runtime (puls-engine/runtime/runtime.cpp) over any number of rounds: where the requests of its
-- queue are, and when its pool shrinks.
use mathlib.Core.List.Perm
use mathlib.Core.List.{Perm}
use puls_rfc.Prelude.{
  ℕ, zero, suc, ◌+◌, ◌≤◌, ◌≡◌, refl, ◌⊎◌, inl, inr, List, [], ◌∷◌, pos, length, sum_by, arith,
  subst, sym, ap, ℤ, pos_part, Option, none, some, get_elem?, map, ◌++◌,
}
use puls_rfc.Double.{Double, IsOrdered}
use puls_rfc.OperatingPoint.{ModelSpec, HwSpec, OperatingPoint}
use puls_rfc.RequestSource.{PulledRequest}
use puls_rfc.Node.{
  NodeScheduler, node_cap_room, pull_into, heal, advance, retire, round_marks, advance_round,
  admit_ideal,
}
use puls_rfc.Node.Pull.{pull_into-none}
use puls_rfc.Node.Waits.{length-retire}
use puls_rfc.Node.Population.{length-advance}
use puls_rfc.Runtime.Defs.{QueueSource, queue_source, warm_fill}
use puls_rfc.Runtime.Demo.{demo_prompts, new_runtime, serve_rounds, load_demo, run_runtime_demo}
use puls_rfc.Runtime.Queue.{IsPull, queue_pull_near-IsPull}
use puls_rfc.Runtime.Conserved.{
  as_request, requests, IsConserved, map-advance, retire-IsConserved, and_then,
}
use puls_rfc.Runtime.Queued.{
  made, enqueue_all_lem, length-made, IsDemoRequest, made-IsDemoRequest, zero_plus,
}
use puls_rfc.Runtime.Moves.{IsTooLarge, queue_pull_near-dry, pull_into-Moves}
use puls_rfc.Runtime.WarmFill.{warm_fill_lem}

module _ {W : Type 0} ⦃d : Double W⦄ (laws : IsOrdered W) (op : OperatingPoint W) where
  -- A queue of which no request fits stays as it is, and so does the pool.
  heal_dry :
      (holes : List ℕ) (n : NodeScheduler QueueSource)
      → IsTooLarge (node_cap_room op) n.source
      → heal op queue_source holes n ≡ n
  unfolding heal queue_source
  heal_dry [] n dry = refl
  heal_dry (hole ∷ holes) n dry =
      let none_fit =
        queue_pull_near-dry laws (d.of_int (pos hole)) (node_cap_room op) n.source dry in
      let same = pull_into-none op queue_source (d.of_int (pos hole)) n none_fit in
      rw (same, heal) (heal_dry holes n dry)

  -- Healing moves requests from the queue into the pool, one for each hole or all that fit.
  abbrev IsHealed : ℕ → NodeScheduler QueueSource → NodeScheduler QueueSource → Type 0
  IsHealed holes n n' =
      Perm (requests n) (requests n')
      × (length n'.pool ≤ length n.pool + holes)
      × ((length n'.pool ≡ length n.pool + holes) ⊎ IsTooLarge (node_cap_room op) n'.source)

  heal-IsHealed :
      (holes : List ℕ) (n : NodeScheduler QueueSource)
      → IsHealed (length holes) n (heal op queue_source holes n)
  unfolding heal
  heal-IsHealed [] n = (Perm.rfl, omega arith, inl (omega arith))
  heal-IsHealed (hole ∷ holes) n =
      let n1 = pull_into op queue_source (d.of_int (pos hole)) n in
      elim (pull_into-Moves laws op (d.of_int (pos hole)) n) [
        | inl (grew, shrank, one) ↦
            let (all, most, full) = heal-IsHealed holes n1 in
            (
              Perm.trans one all,
              omega arith,
              elim full [ inl e ↦ inl (omega arith) | inr dry ↦ inr dry ],
            )
        | inr (same, _, dry) ↦
            rw (same, heal, heal_dry holes n dry) (Perm.rfl, omega arith, inr dry)
      ]

  -- A round keeps each request that it does not finish, and the pool keeps its size unless no request
  -- that waits fits.
  advance_round_lem :
      (n : NodeScheduler QueueSource)
      → let (done, n') = advance_round op queue_source n in
        IsConserved (requests n) done n'
        × (length n'.pool ≤ length n.pool)
        × ((length n'.pool ≡ length n.pool) ⊎ IsTooLarge (node_cap_room op) n'.source)
  unfolding advance_round
  advance_round_lem n =
      let moved = advance (round_marks op n.pool) n.pool in
      let (all, most, full) =
        heal-IsHealed (retire moved).0 (record n { pool = (retire moved).1 }) in
      let left = length-retire moved in
      let moved_all = length-advance (round_marks op n.pool) n.pool in
      let same : map as_request moved ++ n.source ≡ requests n =
        ap (λ rs. rs ++ n.source) (map-advance (round_marks op n.pool) n.pool) in
      let kept = retire-IsConserved moved n.source in
      let healed = heal op queue_source (retire moved).0 (record n { pool = (retire moved).1 }) in
      let after = map as_request kept.finished ++ requests healed in
      let conserved : IsConserved (requests n) (length (retire moved).0) healed = record {
        finished = kept.finished;
        complete = kept.complete;
        counted = kept.counted;
        perm =
            subst (λ rs. Perm rs after) same
              (Perm.trans kept.perm (Perm.append_left (map as_request kept.finished) all));
      } in
      (conserved, omega arith, elim full [ inl e ↦ inl (omega arith) | inr dry ↦ inr dry ])

  -- The pool is full, or no waiting request fits the room of a node.
  abbrev pub IsServing : NodeScheduler QueueSource → Type 0
  IsServing n = (length n.pool ≡ op.decode_pool) ⊎ IsTooLarge (node_cap_room op) n.source

  source-advance_round :
      (n : NodeScheduler QueueSource)
      → IsTooLarge (node_cap_room op) n.source
      → (advance_round op queue_source n).1.source ≡ n.source
  unfolding advance_round
  source-advance_round n dry =
      let (holes, keep) = retire (advance (round_marks op n.pool) n.pool) in
      ap (λ n. n.source) (heal_dry holes (record n { pool = keep }) dry)

  advance_round-IsServing :
      (n : NodeScheduler QueueSource) → IsServing n → IsServing (advance_round op queue_source n).1
  advance_round-IsServing n (inl full) =
      let (all, most, same) = advance_round_lem n in
      elim same [ inl e ↦ inl (omega arith) | inr dry ↦ inr dry ]
  advance_round-IsServing n (inr dry) =
      inr (subst (IsTooLarge (node_cap_room op)) (sym (source-advance_round n dry)) dry)

  -- Over any number of rounds the requests at the start are, each as often as it was there, those of
  -- the decoders that the rounds report finished, which have generated all their tokens, and those that
  -- are resident or wait at the end. The pool does not grow, and from a pool that is full, or a queue of
  -- which no request fits, it is full at the end or no waiting request fits.
  pub serve_rounds-IsServing :
      (rounds : ℕ) (n : NodeScheduler QueueSource)
      → IsServing n
      → let (dones, n') = serve_rounds op rounds n in
        IsConserved (requests n) (sum_by (λ done. done) dones) n'
        × (length n'.pool ≤ length n.pool)
        × IsServing n'
  unfolding serve_rounds
  serve_rounds-IsServing zero n serving = (
    record { finished = []; complete = tt; counted = refl; perm = Perm.rfl },
    omega arith,
    serving,
  )
  serve_rounds-IsServing (suc rounds) n serving =
      let n1 = (advance_round op queue_source n).1 in
      let (all, most, _) = advance_round_lem n in
      let (alls, mosts, served) =
        serve_rounds-IsServing rounds n1 (advance_round-IsServing n serving) in
      (and_then (requests n) _ _ n1 _ all alls, omega arith, served)

  empty-IsTooLarge : (room : ℤ) (queue : QueueSource) → length queue ≡ 0 → IsTooLarge room queue
  empty-IsTooLarge room [] h j y e = absurd (cc)
  empty-IsTooLarge room (r ∷ queue) h j y e = absurd (omega arith)

  unserved-IsTooLarge :
      (ideal : W) (room : ℤ) (queue : QueueSource) (o : Option PulledRequest × QueueSource)
      → IsPull ideal room queue o
      → o.0 ≡ none
      → IsTooLarge room queue
  unserved-IsTooLarge ideal room queue (none, q) p e = p.1
  unserved-IsTooLarge ideal room queue (some r, q) p e = absurd (cc)

  -- `warm_fill` from a pool that is not too large leaves it full, or with no waiting request that fits.
  warm_fill-IsServing :
      (n : NodeScheduler QueueSource) → length n.pool ≤ op.decode_pool → IsServing (warm_fill op n)
  warm_fill-IsServing n fits =
      let (count, most, filled, all) = warm_fill_lem op laws n fits in
      let n' = warm_fill op n in
      let room = node_cap_room op in
      elim filled [
        | inl full ↦ inl (omega arith)
        | inr (inl empty) ↦ inr (empty-IsTooLarge room n'.source empty)
        | inr (inr dry) ↦
            let ideal = admit_ideal op n'.pool in
            inr (
              unserved-IsTooLarge ideal room n'.source _
                (queue_pull_near-IsPull ideal room laws n'.source) dry)
      ]

module _ {W : Type 0} ⦃d : Double W⦄ (laws : IsOrdered W) (model : ModelSpec) (hw : HwSpec W)
    (prefill_tokens : ℕ) where
  -- The demo queues `decode_pool + 20` requests, number `k` of `c / 2 + k % 5 * (c / 4)` tokens, for
  -- the context `c`, and with 1 + k % 2 to generate. At the end these are, each as often as it was
  -- queued, those of the decoders that the rounds reported finished, which have generated all their
  -- tokens, and those that are resident or wait. The pool is not larger than `decode_pool`, and is full
  -- unless no waiting request fits.
  pub run_runtime_demo_lem :
      let op = (new_runtime model hw prefill_tokens).0 in
      let (dones, n) = run_runtime_demo model hw prefill_tokens in
      let c = pos_part (d.trunc op.ctx_balance) in
      (queued : List PulledRequest) × (length queued ≡ op.decode_pool + 20)
      × ((k : ℕ) (r : PulledRequest) → get_elem? queued k ≡ some r → IsDemoRequest c k r)
      × IsConserved queued (sum_by (λ done. done) dones) n
      × (length n.pool ≤ op.decode_pool)
      × IsServing laws op n
  unfolding run_runtime_demo load_demo new_runtime
  run_runtime_demo_lem =
      let (op, n) = new_runtime model hw prefill_tokens in
      let c = pos_part (d.trunc op.ctx_balance) in
      let loaded = load_demo op n in
      let filled = warm_fill op loaded in
      let (count, most, _, moved) = warm_fill_lem op laws loaded (omega arith) in
      let (served, mosts, serving) =
        serve_rounds-IsServing laws op 2 filled
          (warm_fill-IsServing laws op loaded (omega arith)) in
      let all = op.decode_pool + 20 in
      let queued = made (demo_prompts c all 0) 0 in
      let same : loaded.source ≡ queued = enqueue_all_lem (demo_prompts c all 0) 0 [] in
      (
        queued,
        length-made c all 0,
        λ k r e. subst (λ n. IsDemoRequest c n r) (zero_plus k) (made-IsDemoRequest c all 0 k r e),
        record {
          finished = served.finished;
          complete = served.complete;
          counted = served.counted;
          perm = Perm.trans (subst (λ rs. Perm rs (requests filled)) same moved) served.perm;
        },
        omega arith,
        serving,
      )
