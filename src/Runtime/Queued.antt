-- ===== src/Runtime/Queued.antt =====
-- The queue that `run_runtime_demo` of puls-engine/runtime/runtime.cpp loads.
use mathlib.Core.List.{append-nil, append_assoc}
use puls_rfc.Prelude.{
  ℕ, zero, suc, ◌+◌, ◌*◌, ◌/◌, ◌%◌, ◌≡◌, refl, sym, subst, ◌∙◌, some, some-injective, List, [], ◌∷◌,
  ◌++◌, length, get_elem?, arith,
}
use puls_rfc.RequestSource.{PulledRequest}
use puls_rfc.Runtime.Defs.{QueueSource, enqueue}
use puls_rfc.Runtime.Demo.{demo_prompts, enqueue_all}

-- The requests that the demo makes of its prompts, from number `k` on.
pub made : List ℕ → ℕ → List PulledRequest
made [] k = []
made (prompt ∷ prompts) k = record { prompt = prompt; dtot = 1 + k % 2 } ∷ made prompts (k + 1)

pub enqueue_all_lem :
    (prompts : List ℕ) (k : ℕ) (queue : QueueSource)
    → enqueue_all prompts k queue ≡ queue ++ made prompts k
unfolding enqueue_all enqueue made
enqueue_all_lem [] k queue = sym (append-nil queue)
enqueue_all_lem (prompt ∷ prompts) k queue =
    let r : PulledRequest = record { prompt = prompt; dtot = 1 + k % 2 } in
    enqueue_all_lem prompts (k + 1) (queue ++ r ∷ [])
    ∙ append_assoc queue (r ∷ []) (made prompts (k + 1))

pub length-made : (c left k : ℕ) → length (made (demo_prompts c left k) k) ≡ left
unfolding made demo_prompts
length-made c zero k = refl
length-made c (suc left) k = omega (arith, length-made c left (k + 1))

-- The request number `k` of the demo, whose context is cut off to `c`.
abbrev pub IsDemoRequest : ℕ → ℕ → PulledRequest → Type 0
IsDemoRequest c k r = (r.prompt ≡ c / 2 + k % 5 * (c / 4)) × (r.dtot ≡ 1 + k % 2)

pub made-IsDemoRequest :
    (c left k j : ℕ) (r : PulledRequest)
    → get_elem? (made (demo_prompts c left k) k) j ≡ some r
    → IsDemoRequest c (k + j) r
unfolding made demo_prompts
made-IsDemoRequest c zero k j r e = absurd (cc)
made-IsDemoRequest c (suc left) k zero r e =
    let same : k ≡ k + 0 = omega arith in
    subst (IsDemoRequest c (k + 0)) (some-injective _ r e) (
      subst (λ n. IsDemoRequest c n (record { prompt = c / 2 + k % 5 * (c / 4); dtot = 1 + k % 2 }))
        same (refl, refl))
made-IsDemoRequest c (suc left) k (suc j) r e =
    let same : k + 1 + j ≡ k + suc j = omega arith in
    subst (λ n. IsDemoRequest c n r) same (made-IsDemoRequest c left (k + 1) j r e)

pub zero_plus : (k : ℕ) → 0 + k ≡ k
zero_plus k = omega arith
