-- ===== src/Sim/Lifecycle/Disjoint.antt =====
-- What the two chunk batches of a round of puls-engine/sim/lifecycle.cpp assign, and what becomes of
-- the prefills.
use puls_rfc.Prelude.{
  ℕ, ◌+◌, ◌≤◌, ◌<◌, ◌≡◌, refl, ◌⊎◌, inl, inr, Bool, true, false, List, [], ◌∷◌, ◌++◌, map, arith,
  ltb, leb, length, replicate, sum_by, All, All-append, length-append, Bool-cases, length-map,
  length-replicate, ◌∙◌,
}
use puls_rfc.Double.{Double, IsOrdered}
use puls_rfc.OperatingPoint.{OperatingPoint}
use puls_rfc.Steering.{PrefillReq, steer_prefill_chunks}
use puls_rfc.Steering.Budget.{AreCovered, DepthsInRange, steer_prefill_chunks_lem}
use puls_rfc.Sim.Lifecycle.Prefill.{
  SimPrefill, prefill_reqs, progress, hand_over, pf_steer_once, prefill_batches,
}

-- A request of the pool still has prompt tokens to process, and its prompt is no longer than `top`.
abbrev pub IsOpen : ℕ → SimPrefill → Type 0
IsOpen top q = (q.processed < q.prompt) × (q.prompt ≤ top)

abbrev pub IsFinished : SimPrefill → Type 0
IsFinished q = q.processed ≡ q.prompt

-- Beside its request, at most one of the two chunks is not 0, and none goes beyond the prompt. There
-- is a chunk of each batch for every request.
abbrev pub AreDisjoint : List SimPrefill → List ℕ → List ℕ → Type 0
AreDisjoint [] [] [] = Unit {0}
AreDisjoint (q ∷ qs) (c1 ∷ cs1) (c2 ∷ cs2) =
    ((c1 ≡ 0) ⊎ (c2 ≡ 0)) × (q.processed + (c1 + c2) ≤ q.prompt) × AreDisjoint qs cs1 cs2
AreDisjoint _ _ _ = ⊥

length-prefill_reqs :
    (ms : List Bool) (qs : List SimPrefill)
    → length ms ≡ length qs
    → length (prefill_reqs ms qs) ≡ length qs
unfolding prefill_reqs
length-prefill_reqs [] [] e = refl
length-prefill_reqs [] (q ∷ qs) e = absurd (omega arith)
length-prefill_reqs (m ∷ ms) [] e = absurd (omega arith)
length-prefill_reqs (m ∷ ms) (q ∷ qs) e = omega (arith, length-prefill_reqs ms qs (omega arith))

reqs-small :
    (top : ℕ) (ms : List Bool) (qs : List SimPrefill)
    → All (IsOpen top) qs
    → All (λ (x : PrefillReq). x.prompt ≤ top) (prefill_reqs ms qs)
unfolding prefill_reqs
reqs-small top [] qs h = tt
reqs-small top (m ∷ ms) [] h = tt
reqs-small top (true ∷ ms) (q ∷ qs) h = (h.0.1, reqs-small top ms qs h.1)
reqs-small top (false ∷ ms) (q ∷ qs) h = (h.0.1, reqs-small top ms qs h.1)

covered-AreDisjoint :
    (top : ℕ) (qs : List SimPrefill) (cs1 cs2 : List ℕ)
    → All (IsOpen top) qs
    → length cs1 ≡ length qs
    → length cs2 ≡ length qs
    → AreCovered (prefill_reqs (replicate (length qs) false) qs) cs1
    → AreCovered (prefill_reqs (map (ltb 0) cs1) qs) cs2
    → AreDisjoint qs cs1 cs2
unfolding prefill_reqs
covered-AreDisjoint top [] [] [] open_ e1 e2 h1 h2 = tt
covered-AreDisjoint top [] (c ∷ cs) cs2 open_ e1 e2 h1 h2 = absurd (omega arith)
covered-AreDisjoint top [] [] (c ∷ cs2) open_ e1 e2 h1 h2 = absurd (omega arith)
covered-AreDisjoint top (q ∷ qs) [] cs2 open_ e1 e2 h1 h2 = absurd (omega arith)
covered-AreDisjoint top (q ∷ qs) (c1 ∷ cs1) [] open_ e1 e2 h1 h2 = absurd (omega arith)
covered-AreDisjoint top (q ∷ qs) (c1 ∷ cs1) (c2 ∷ cs2) open_ e1 e2 h1 h2 =
    elim (Bool-cases (ltb 0 c1)) [
      | inl some_ ↦
          let (one, rest) = rw some_ at h2 in
          let zero_ : c2 ≡ 0 = elim one [ inl z ↦ z | inr le ↦ omega arith ] in
          let fits : q.processed + c1 ≤ q.prompt = elim h1.0 [
            | inl z ↦ omega (arith, open_.0.0)
            | inr le ↦ le
          ] in
          (
            inr zero_,
            omega arith,
            covered-AreDisjoint top qs cs1 cs2 open_.1 (omega arith) (omega arith) h1.1 rest,
          )
      | inr none_ ↦
          let (two, rest) = rw none_ at h2 in
          let zero_ : c1 ≡ 0 = ground arith in
          let fits : q.processed + c2 ≤ q.prompt = elim two [
            | inl z ↦ omega (arith, open_.0.0)
            | inr le ↦ le
          ] in
          (
            inl zero_,
            omega arith,
            covered-AreDisjoint top qs cs1 cs2 open_.1 (omega arith) (omega arith) h1.1 rest,
          )
    ]

module _ {W : Type 0} ⦃d : Double W⦄ (op : OperatingPoint W) (laws : IsOrdered W) (top : ℕ) where
  -- The two prefill batches of a round assign tokens to different requests, none beyond its prompt, and
  -- at most `prefill_tokens` each. This is for a pool of unfinished requests with prompts up to `top`,
  -- and every depth up to `top` in range of the steering's first `best_dist`.
  pub prefill_batches-AreDisjoint :
      (pf : List SimPrefill)
      → DepthsInRange op top
      → All (IsOpen top) pf
      → (let (one, two) = prefill_batches op pf in
          AreDisjoint pf one.chunks two.chunks
          × (sum_by (λ c. c) one.chunks ≤ op.prefill_tokens)
          × (sum_by (λ c. c) two.chunks ≤ op.prefill_tokens))
  unfolding prefill_batches pf_steer_once
  prefill_batches-AreDisjoint pf range open_ =
      let blank = replicate (length pf) false in
      let reqs1 = prefill_reqs blank pf in
      let chunks1 = steer_prefill_chunks op reqs1 in
      let reqs2 = prefill_reqs (map (ltb 0) chunks1) pf in
      let chunks2 = steer_prefill_chunks op reqs2 in
      let (len1, cov1, sum1) =
        steer_prefill_chunks_lem op laws top range reqs1 (reqs-small top blank pf open_) in
      let (len2, cov2, sum2) =
        steer_prefill_chunks_lem op laws top range reqs2
          (reqs-small top (map (ltb 0) chunks1) pf open_) in
      let size1 = len1 ∙ length-prefill_reqs blank pf (length-replicate (length pf) false) in
      let size2 =
        len2 ∙ length-prefill_reqs (map (ltb 0) chunks1) pf (length-map (ltb 0) chunks1 ∙ size1) in
      (
        covered-AreDisjoint top pf chunks1 chunks2 open_ size1 size2 cov1 cov2,
        elim sum1 [ inl e ↦ omega arith | inr h ↦ h.0 ],
        elim sum2 [ inl e ↦ omega arith | inr h ↦ h.0 ],
      )

-- Progress by disjoint chunks leaves no request beyond its prompt.
pub progress-le :
    (top : ℕ) (qs : List SimPrefill) (cs1 cs2 : List ℕ)
    → All (IsOpen top) qs
    → AreDisjoint qs cs1 cs2
    → All (λ (q : SimPrefill). (q.processed ≤ q.prompt) × (q.prompt ≤ top)) (progress cs1 cs2 qs)
unfolding progress
progress-le top [] [] [] h dis = tt
progress-le top [] [] (c ∷ cs2) h dis = tt
progress-le top [] (c ∷ cs1) [] h dis = tt
progress-le top [] (c ∷ cs1) (c2 ∷ cs2) h dis = tt
progress-le top (q ∷ qs) [] cs2 h dis = absurd dis
progress-le top (q ∷ qs) (c ∷ cs1) [] h dis = absurd dis
progress-le top (q ∷ qs) (c1 ∷ cs1) (c2 ∷ cs2) h dis = elim (Bool-cases (ltb 0 (c1 + c2))) [
  | inl some_ ↦ rw (some_, progress) ((dis.1, h.0.1), progress-le top qs cs1 cs2 h.1 dis.2)
  | inr none_ ↦ rw (none_, progress) ((omega arith, h.0.1), progress-le top qs cs1 cs2 h.1 dis.2)
]

pub length-progress :
    (cs1 cs2 : List ℕ) (qs : List SimPrefill) → length (progress cs1 cs2 qs) ≡ length qs
unfolding progress
length-progress [] cs2 qs = refl
length-progress (c ∷ cs1) [] qs = refl
length-progress (c1 ∷ cs1) (c2 ∷ cs2) [] = refl
length-progress (c1 ∷ cs1) (c2 ∷ cs2) (q ∷ qs) = omega (arith, length-progress cs1 cs2 qs)

-- The hand-over splits the pool: what stays is unfinished, what joins the others is finished.
pub hand_over_lem :
    (top : ℕ) (qs ready : List SimPrefill)
    → All (λ (q : SimPrefill). (q.processed ≤ q.prompt) × (q.prompt ≤ top)) qs
    → All IsFinished ready
    → (let (keep, ready') = hand_over qs ready in
        All (IsOpen top) keep
        × All IsFinished ready'
        × (length keep + length ready' ≡ length qs + length ready)
        × (length keep ≤ length qs))
unfolding hand_over
hand_over_lem top [] ready h done = (tt, done, refl, omega arith)
hand_over_lem top (q ∷ qs) ready h done = elim (Bool-cases (leb q.prompt q.processed)) [
  | inl finished ↦
      let (keep, rest, n, fewer) =
        hand_over_lem top qs (ready ++ q ∷ []) h.1
          (All-append IsFinished ready (q ∷ []) done (ground arith, tt)) in
      rw (finished, hand_over)
        (keep, rest, omega (arith, n, length-append ready (q ∷ [])), omega (arith, fewer))
  | inr more ↦
      let (keep, rest, n, fewer) = hand_over_lem top qs ready h.1 done in
      rw (more, hand_over)
        (((ground arith, h.0.1), keep), rest, omega (arith, n), omega (arith, fewer))
]
