-- ===== src/Steering/Batch.antt =====
-- What a run of `steer_decode_set` (puls-engine/core/steering.cpp) means for a batch: which indices
-- it holds, how many, how many tokens, and when it falls short.
use puls_rfc.Prelude.{
  ℕ, zero, suc, ◌+◌, ◌≤◌, ◌<◌, ◌≡◌, refl, ◌⊎◌, inl, inr, Bool, true, none, some, List, [], ◌∷◌,
  ◌++◌, arith, length, get_elem?, set, get_elem?-set_self, get_elem?-set_ne, lt-length_of_get_elem?,
  subst, All, All-get, sym, length-set,
}
use native.Mathlib.Decide.{ℕ_discrete, dec_le}
use puls_rfc.Double.{Double, IsOrdered}
use puls_rfc.OperatingPoint.{OperatingPoint}
use puls_rfc.Steering.Age.{mark_all}
use puls_rfc.Steering.Decode.{Decoder, far, dist, decode_ideal, steer_decode_set}
use puls_rfc.Steering.Greedy.{IsFree}
use puls_rfc.Steering.Run.{AreFresh, Run, steer_decode_set-Run}

-- Σ of the selected decoders' KV lengths, as the callers add it up.
unfoldable pub kv_sum : List Decoder → List ℕ → ℕ
kv_sum pool [] = 0
kv_sum pool (i ∷ is) = elim (get_elem? pool i) [ none ↦ 0 | some x ↦ x.kv_length ] + kv_sum pool is

pub length-mark_all : (us : List Bool) (is : List ℕ) → length (mark_all us is) ≡ length us
unfolding mark_all
length-mark_all us [] = refl
length-mark_all us (i ∷ is) =
    omega (arith, length-mark_all (set us i true) is, length-set us i true)

pub set-keeps_true :
    (us : List Bool) (i j : ℕ)
    → get_elem? us j ≡ some true
    → get_elem? (set us i true) j ≡ some true
set-keeps_true us i j h = elim (ℕ_discrete i j) [
  | yes same ↦
      subst (λ k. get_elem? (set us i true) k ≡ some true) same
        (get_elem?-set_self us i true
          (lt-length_of_get_elem? us i (subst (λ k. get_elem? us k ≡ some true) (sym same) h)))
  | no other ↦ rw (get_elem?-set_ne us i j true other) h
]

pub mark_all-keeps_true :
    (us : List Bool) (is : List ℕ) (j : ℕ)
    → get_elem? us j ≡ some true
    → get_elem? (mark_all us is) j ≡ some true
unfolding mark_all
mark_all-keeps_true us [] j h = h
mark_all-keeps_true us (i ∷ is) j h =
    mark_all-keeps_true (set us i true) is j (set-keeps_true us i j h)

pub AreFresh-append :
    (us : List Bool) (is js : List ℕ)
    → AreFresh us is
    → AreFresh (mark_all us is) js
    → AreFresh us (is ++ js)
unfolding mark_all
AreFresh-append us [] js h k = k
AreFresh-append us (i ∷ is) js h k = (h.0, AreFresh-append (set us i true) is js h.1 k)

module _ {W : Type 0} ⦃d : Double W⦄ (op : OperatingPoint W) (pool : List Decoder) where
  pub Run-AreFresh :
      (left sum : ℕ) (used : List Bool) (sel : List ℕ)
      → Run op pool left sum used sel
      → AreFresh used sel × (length sel ≤ left)
  Run-AreFresh left sum used [] run = (tt, omega arith)
  Run-AreFresh zero sum used (i ∷ is) run = absurd run
  Run-AreFresh (suc left) sum used (i ∷ is) (x, below, choice, run) =
      let (fresh, short) = Run-AreFresh left (sum + x.kv_length) (set used i true) is run in
      ((choice.0.0, fresh), omega arith)

  Run-kv_sum :
      (top left sum : ℕ) (used : List Bool) (sel : List ℕ)
      → All (λ x. x.kv_length ≤ top) pool
      → sum ≤ op.kv_operating_target + top
      → Run op pool left sum used sel
      → sum + kv_sum pool sel ≤ op.kv_operating_target + top
  unfolding kv_sum
  Run-kv_sum top left sum used [] small start run = omega arith
  Run-kv_sum top zero sum used (i ∷ is) small start run = absurd run
  Run-kv_sum top (suc left) sum used (i ∷ is) small start (x, below, ((free, at), pick), run) =
      let fits : x.kv_length ≤ top = All-get (λ x. x.kv_length ≤ top) pool i x small at in
      let rest =
        Run-kv_sum top left (sum + x.kv_length) (set used i true) is small (omega arith) run in
      rw at (omega (arith, rest))

  -- Every decoder of the pool is used.
  abbrev pub AllUsed : List Bool → Type 0
  AllUsed used = (j : ℕ) (y : Decoder) → ¬ IsFree op used pool j y

  -- Every length lies within the first `best_dist`, 1e18, of every ideal that the loop can reach.
  abbrev pub InRange : Type 0
  InRange =
      (left sum j : ℕ) (y : Decoder)
      → 0 < left
      → sum < op.kv_operating_target
      → get_elem? pool j ≡ some y
      → d.lt (dist (decode_ideal op left sum) y.kv_length) far ≡ true

  Run-stop :
      (left sum : ℕ) (used : List Bool) (sel : List ℕ)
      → InRange
      → Run op pool left sum used sel
      → (length sel ≡ left)
        ⊎ (op.kv_operating_target ≤ sum + kv_sum pool sel)
        ⊎ AllUsed (mark_all used sel)
  unfolding kv_sum mark_all
  Run-stop left sum used [] range (inl done) = inl (omega arith)
  Run-stop left sum used [] range (inr (inl done)) = inr (inl (omega arith))
  Run-stop zero sum used [] range (inr (inr out)) = inl refl
  Run-stop (suc left) sum used [] range (inr (inr out)) = elim (dec_le op.kv_operating_target sum) [
    | yes reached ↦ inr (inl (omega arith))
    | no below ↦ inr (
        inr (λ j y free.
          ground
            (arith, out j y free, range (suc left) sum j y (omega arith) (omega arith) free.1)))
  ]
  Run-stop zero sum used (i ∷ is) range run = absurd run
  Run-stop (suc left) sum used (i ∷ is) range (x, below, ((free, at), pick), run) =
      elim (Run-stop left (sum + x.kv_length) (set used i true) is range run) [
        | inl full ↦ inl (omega arith)
        | inr (inl reached) ↦ inr (inl (rw at (omega arith)))
        | inr (inr out) ↦ inr (inr out)
      ]

  module _ (laws : IsOrdered W) where
    -- Two batches that share `used` hold different decoders, none of them used before, and each
    -- batch has at most `decode_count_target`.
    pub steer_decode_set-disjoint :
        (used : List Bool)
        → let first = steer_decode_set op pool used in
          let second = steer_decode_set op pool first.1 in
          AreFresh used (first.0 ++ second.0)
          × (length first.0 ≤ op.decode_count_target)
          × (length second.0 ≤ op.decode_count_target)
    steer_decode_set-disjoint used =
        let first = steer_decode_set op pool used in
        let second = steer_decode_set op pool first.1 in
        let (run, marks) = steer_decode_set-Run op pool laws used in
        let (fresh, short) = Run-AreFresh op.decode_count_target 0 used first.0 run in
        let (run', marks') = steer_decode_set-Run op pool laws first.1 in
        let (fresh', short') = Run-AreFresh op.decode_count_target 0 first.1 second.0 run' in
        (
          AreFresh-append used first.0 second.0 fresh
              (subst (λ us. AreFresh us second.0) marks fresh'),
          short,
          short',
        )

    -- A batch overshoots the KV target by at most the longest decoder.
    pub steer_decode_set-kv_sum :
        (top : ℕ) (used : List Bool)
        → All (λ x. x.kv_length ≤ top) pool
        → kv_sum pool (steer_decode_set op pool used).0 ≤ op.kv_operating_target + top
    steer_decode_set-kv_sum top used small =
        let (run, marks) = steer_decode_set-Run op pool laws used in
        omega (arith, Run-kv_sum top op.decode_count_target 0 used _ small (omega arith) run)

    -- With every length in range, a batch ends because it holds `decode_count_target` decoders, or
    -- has reached the KV target, or because the whole pool is used.
    pub steer_decode_set-stop :
        (used : List Bool)
        → InRange
        → let (selected, used') = steer_decode_set op pool used in
          (length selected ≡ op.decode_count_target)
          ⊎ (op.kv_operating_target ≤ kv_sum pool selected)
          ⊎ AllUsed used'
    steer_decode_set-stop used range =
        let (run, marks) = steer_decode_set-Run op pool laws used in
        elim (Run-stop op.decode_count_target 0 used _ range run) [
          | inl full ↦ inl full
          | inr (inl reached) ↦ inr (inl (omega arith))
          | inr (inr out) ↦ inr (inr (subst AllUsed (sym marks) out))
        ]
