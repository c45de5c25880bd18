-- ===== src/Steering/Budget.antt =====
-- How many tokens `steer_prefill_chunks` (puls-engine/core/steering.cpp) assigns, and to whom.
use puls_rfc.Prelude.{
  ℕ, zero, suc, ◌+◌, ◌*◌, ◌≤◌, ◌<◌, ◌≡◌, refl, ◌⊎◌, inl, inr, true, false, some, List, [], ◌∷◌, map,
  arith, length, sum_by, set, get_elem?, All, All-get, Option-cases, ◌∙◌, length-map, subst, sym,
  ap, some-injective,
}
use native.Mathlib.Decide.{dec_le}
use puls_rfc.Double.{Double, IsOrdered}
use puls_rfc.OperatingPoint.{OperatingPoint}
use puls_rfc.Steering.Decode.{far, dist}
use puls_rfc.Steering.Prefill.{
  PrefillReq, Assigned, prefill_ideal, choose_token, prefill_loop, steer_prefill_chunks,
}
use puls_rfc.Steering.Chunks.{IsOpen, depth, chunk_sum, choose_token-some, choose_token-none}

-- Nothing is assigned beyond the prompt.
abbrev pub IsCovered : Assigned → Type 0
IsCovered s = (s.1 ≡ 0) ⊎ (s.0.processed + s.1 ≤ s.0.prompt)

-- Beside its request, no chunk goes beyond the prompt.
abbrev pub AreCovered : List PrefillReq → List ℕ → Type 0
AreCovered (x ∷ xs) (c ∷ cs) = IsCovered (x, c) × AreCovered xs cs
AreCovered _ _ = Unit {0}

-- Beside its request, every chunk completes the prompt.
abbrev pub AreComplete : List PrefillReq → List ℕ → Type 0
AreComplete (x ∷ xs) (c ∷ cs) = (x.prompt ≤ x.processed + c) × AreComplete xs cs
AreComplete _ _ = Unit {0}

abbrev requests : List Assigned → List PrefillReq
requests = map (λ s. s.0)

abbrev chunks_of : List Assigned → List ℕ
chunks_of = map (λ s. s.1)

chunk_sum-set :
    (rows : List Assigned) (i : ℕ) (x : PrefillReq) (c : ℕ)
    → get_elem? rows i ≡ some (x, c)
    → chunk_sum (set rows i (x, c + 1)) ≡ chunk_sum rows + 1
chunk_sum-set [] i x c h = absurd (cc)
chunk_sum-set (y ∷ ys) zero x c h = ground arith
chunk_sum-set (y ∷ ys) (suc i) x c h = omega (arith, chunk_sum-set ys i x c h)

requests-set :
    (rows : List Assigned) (i : ℕ) (x : PrefillReq) (c : ℕ)
    → get_elem? rows i ≡ some (x, c)
    → map (λ s. s.0) (set rows i (x, c + 1)) ≡ map (λ s. s.0) rows
requests-set [] i x c h = refl
requests-set (y ∷ ys) zero x c h =
    ap (λ z. z.0 ∷ map (λ s. s.0) ys) (sym (some-injective y (x, c) h))
requests-set (y ∷ ys) (suc i) x c h = ap (◌∷◌ y.0) (requests-set ys i x c h)

All-set :
    (P : Assigned → Type 0) (xs : List Assigned) (i : ℕ) (x : Assigned)
    → All P xs
    → P x
    → All P (set xs i x)
All-set P [] i x h p = tt
All-set P (y ∷ ys) zero x h p = (p, h.1)
All-set P (y ∷ ys) (suc i) x h p = (h.0, All-set P ys i x h.1 p)

All-of-get :
    (P : Assigned → Type 0) (xs : List Assigned)
    → ((j : ℕ) (y : Assigned) → get_elem? xs j ≡ some y → P y)
    → All P xs
All-of-get P [] h = tt
All-of-get P (x ∷ xs) h = (h 0 x refl, All-of-get P xs (λ j. h (suc j)))

covered_rows :
    (rows : List Assigned)
    → All IsCovered rows
    → AreCovered (map (λ s. s.0) rows) (map (λ s. s.1) rows)
covered_rows [] h = tt
covered_rows (r ∷ rs) h = (h.0, covered_rows rs h.1)

complete_rows :
    (rows : List Assigned)
    → All (λ s. s.0.prompt ≤ s.0.processed + s.1) rows
    → AreComplete (map (λ s. s.0) rows) (map (λ s. s.1) rows)
complete_rows [] h = tt
complete_rows (r ∷ rs) h = (h.0, complete_rows rs h.1)

sum-chunks : (rows : List Assigned) → sum_by (λ c. c) (map (λ s. s.1) rows) ≡ chunk_sum rows
sum-chunks [] = refl
sum-chunks (r ∷ rs) = omega (arith, sum-chunks rs)

start_requests : (pool : List PrefillReq) → requests (map (λ x. (x, 0)) pool) ≡ pool
start_requests [] = refl
start_requests (x ∷ xs) = ap (◌∷◌ x) (start_requests xs)

start_good :
    (top : ℕ) (pool : List PrefillReq)
    → All (λ x. x.prompt ≤ top) pool
    → All (λ (s : Assigned). IsCovered s × (s.0.prompt ≤ top)) (map (λ x. (x, 0)) pool)
start_good top [] h = tt
start_good top (x ∷ xs) h = ((inl refl, h.0), start_good top xs h.1)

start_sum : (pool : List PrefillReq) → chunk_sum (map (λ x. (x, 0)) pool) ≡ 0
start_sum [] = refl
start_sum (x ∷ xs) = omega (arith, start_sum xs)

module _ {W : Type 0} ⦃d : Double W⦄ (op : OperatingPoint W) where
  -- Up to the depth `top`, every depth lies within the first `best_dist`, 1e18, of every ideal that
  -- the loop can reach.
  abbrev pub DepthsInRange : ℕ → Type 0
  DepthsInRange top =
      (left work n : ℕ)
      → 0 < left
      → work ≤ op.prefill_tokens * top
      → n ≤ top
      → d.lt (dist (prefill_ideal op left work) n) far ≡ true

  module _ (laws : IsOrdered W) (top : ℕ) (range : DepthsInRange top) where
    abbrev Outcome : ℕ → List Assigned → List Assigned → Type 0
    Outcome left rows rows' =
        (requests rows' ≡ requests rows)
        × All IsCovered rows'
        × ((chunk_sum rows' ≡ chunk_sum rows + left)
            ⊎ (chunk_sum rows' ≤ chunk_sum rows + left)
              × All (λ s. s.0.prompt ≤ s.0.processed + s.1) rows')

    -- A row is covered, and its prompt is no longer than `top`.
    abbrev IsGood : Assigned → Type 0
    IsGood s = IsCovered s × (s.0.prompt ≤ top)

    IsCovered-of : (rows : List Assigned) → All IsGood rows → All IsCovered rows
    IsCovered-of [] h = tt
    IsCovered-of (r ∷ rs) h = (h.0.0, IsCovered-of rs h.1)

    prefill_loop_lem :
        (left work : ℕ) (rows : List Assigned)
        → work + left * top ≤ op.prefill_tokens * top
        → All IsGood rows
        → Outcome left rows (prefill_loop op left work rows)
    unfolding prefill_loop
    prefill_loop_lem zero work rows room h = (refl, IsCovered-of rows h, inl (omega arith))
    prefill_loop_lem (suc left) work rows room h =
        elim (Option-cases (choose_token op (suc left) work rows)) [
          | inl e ↦
              rw (e, prefill_loop)
                (
                  refl,
                  IsCovered-of rows h,
                  inr (
                    omega arith,
                    All-of-get _ rows (λ j y at.
                        complete y (choose_token-none op laws (suc left) work rows e j y at)
                          (All-get IsGood rows j y h at).1),
                  ),
                )
          | inr (p, e) ↦
              let (at, open_row, why) = choose_token-some op laws (suc left) work rows p e in
              let x = p.1.0 in
              let c = p.1.1 in
              let rows' = set rows p.0 (x, c + 1) in
              let small : x.prompt ≤ top = (All-get IsGood rows p.0 p.1 h at).1 in
              let (same, covered, done) =
                prefill_loop_lem left (work + (x.processed + (c + 1))) rows' (omega arith)
                  (All-set IsGood rows p.0 (x, c + 1) h (inr (omega arith), small)) in
              let one = chunk_sum-set rows p.0 x c at in
              rw (e, prefill_loop)
                (
                  same ∙ requests-set rows p.0 x c at,
                  covered,
                  elim done [
                    | inl full ↦ inl (omega arith)
                    | inr (few, all) ↦ inr (omega arith, all)
                  ],
                )
        ]
      where
        complete :
            (y : Assigned)
            → (IsOpen y → d.lt (dist (prefill_ideal op (suc left) work) (depth y)) far ≡ false)
            → y.0.prompt ≤ top
            → y.0.prompt ≤ y.0.processed + y.1
        complete y far_off small = elim (dec_le y.0.prompt (y.0.processed + y.1)) [
          | yes done ↦ done
          | no more ↦
              let near =
                range (suc left) work (depth y) (omega arith) (omega arith) (omega arith) in
              let off = far_off (omega arith) in absurd (ground arith)
        ]

    -- One chunk for each request, none beyond its prompt. The chunks use up the token budget, unless
    -- they complete every prompt. This is for prompts up to `top`, with every depth up to `top` in
    -- range of the loop's first `best_dist`.
    pub steer_prefill_chunks_lem :
        (pool : List PrefillReq)
        → All (λ x. x.prompt ≤ top) pool
        → let chunks = steer_prefill_chunks op pool in
          (length chunks ≡ length pool)
          × AreCovered pool chunks
          × ((sum_by (λ c. c) chunks ≡ op.prefill_tokens)
              ⊎ (sum_by (λ c. c) chunks ≤ op.prefill_tokens) × AreComplete pool chunks)
    unfolding steer_prefill_chunks
    steer_prefill_chunks_lem pool small =
        let start : List Assigned = map (λ x. (x, 0)) pool in
        let rows = prefill_loop op op.prefill_tokens 0 start in
        let (same, covered, done) =
          prefill_loop_lem op.prefill_tokens 0 start (omega arith) (start_good top pool small) in
        let whole : requests rows ≡ pool = same ∙ start_requests pool in
        (
          length-map (λ (s : Assigned). s.1) rows
              ∙ sym (length-map (λ (s : Assigned). s.0) rows)
              ∙ ap length whole,
          subst (λ ps. AreCovered ps (chunks_of rows)) whole (covered_rows rows covered),
          elim done [
            | inl full ↦ inl (omega (arith, sum-chunks rows, start_sum pool))
            | inr (few, all) ↦ inr (
              omega (arith, sum-chunks rows, start_sum pool),
              subst (λ ps. AreComplete ps (chunks_of rows)) whole (complete_rows rows all),
            )
          ],
        )
