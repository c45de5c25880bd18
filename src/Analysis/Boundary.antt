-- ===== src/Analysis/Boundary.antt =====
-- What `sweep_boundary` of puls-engine/analysis/max_model.cpp reports.
use puls_rfc.Prelude.{
  ℕ, zero, suc, ◌+◌, ◌<◌, ◌≡◌, refl, ◌⊎◌, inl, inr, true, false, Option, none, some, arith,
  Bool-cases, ltb, ltb→lt, subst,
}
use puls_rfc.Double.{Double}
use puls_rfc.OperatingPoint.{HwSpec}
use puls_rfc.Analysis.MaxModel.{
  Axis, is_skipped, Boundary, point_at, boundary_at, sweep, sweep_boundary,
}

-- What holds below a number and at it holds up to it.
up_to : (P : ℕ → Type 0) (n : ℕ) → ((j : ℕ) → j < n → P j) → P n → (j : ℕ) → j < n + 1 → P j
up_to P n below at j h = elim (Bool-cases (ltb j n)) [
  | inl less ↦ below j (ltb→lt j n less)
  | inr not_less ↦ let same : n ≡ j = ground arith in subst P same at
]

module _ {W : Type 0} ⦃d : Double W⦄ (hw : HwSpec W) (prefill stack_height : ℕ) (axis : Axis)
    (layers0 hidden0 : ℕ) where
  abbrev IsTried : ℕ → Type 0
  IsTried step = is_skipped axis hidden0 step ≡ false

  abbrev FitsAt : ℕ → Type 0
  FitsAt step = (point_at hw prefill stack_height axis layers0 hidden0 step).hbm_fits ≡ true

  -- What is reported of the steps before `stop`: the last model tried, or nothing, where none is.
  abbrev pub IsLast : ℕ → Option (Boundary W) → Type 0
  IsLast stop none = (j : ℕ) → j < stop → is_skipped axis hidden0 j ≡ true
  IsLast stop (some b) =
      (j : ℕ) × (j < stop)
      × IsTried j
      × (b ≡ boundary_at hw prefill stack_height axis layers0 hidden0 j)
      × ((i : ℕ) → j < i → i < stop → is_skipped axis hidden0 i ≡ true)

  -- The sweep stops at the first model that does not fit, or after 4000 steps.
  abbrev pub StopsAt : ℕ → ℕ → Type 0
  StopsAt end_ stop =
      ((j : ℕ) → j < stop → IsTried j → FitsAt j)
      × ((stop ≡ end_)
          ⊎ (stop < end_)
            × IsTried stop
            × ((point_at hw prefill stack_height axis layers0 hidden0 stop).hbm_fits ≡ false))

  sweep_lem :
      (left step : ℕ) (last : Option (Boundary W))
      → ((j : ℕ) → j < step → IsTried j → FitsAt j)
      → IsLast step last
      → (stop : ℕ) × StopsAt (step + left) stop
        × IsLast stop (sweep hw prefill stack_height axis layers0 hidden0 left step last)
  unfolding sweep
  sweep_lem zero step last fit is_last = (step, (fit, inl (omega arith)), is_last)
  sweep_lem (suc left) step last fit is_last = elim (Bool-cases (is_skipped axis hidden0 step)) [
    | inl skip ↦
        let (stop, stops, reports) =
          sweep_lem left (step + 1) last
            (up_to (λ j. IsTried j → FitsAt j) step fit (λ tried. absurd (cc)))
            (skipped last skip is_last) in
        rw (skip, sweep) (stop, at_end stop stops, reports)
    | inr tried ↦
        elim (Bool-cases (point_at hw prefill stack_height axis layers0 hidden0 step).hbm_fits) [
          | inl fits ↦
              let (stop, stops, reports) =
                sweep_lem left (step + 1)
                  (some (boundary_at hw prefill stack_height axis layers0 hidden0 step))
                  (up_to (λ j. IsTried j → FitsAt j) step fit (λ t. fits))
                  (step, omega arith, tried, refl, λ i above below. absurd (omega arith)) in
              rw (tried, fits, sweep) (stop, at_end stop stops, reports)
          | inr unfit ↦
              rw (tried, unfit, sweep) (step, (fit, inr (omega arith, tried, unfit)), is_last)
        ]
  ]
    where
      at_end : (stop : ℕ) → StopsAt (step + 1 + left) stop → StopsAt (step + suc left) stop
      at_end stop (fits, why) = (
        fits,
        elim why [
          | inl e ↦ inl (omega arith)
          | inr (less, tried, unfit) ↦ inr (omega arith, tried, unfit)
        ],
      )

      skipped :
          (last : Option (Boundary W))
          → is_skipped axis hidden0 step ≡ true
          → IsLast step last
          → IsLast (step + 1) last
      skipped none skip h = up_to (λ j. is_skipped axis hidden0 j ≡ true) step h skip
      skipped (some b) skip (j, less, tried, same, rest) = (
        j,
        omega arith,
        tried,
        same,
        λ i above below.
            up_to (λ i. j < i → is_skipped axis hidden0 i ≡ true) step (λ i b a. rest i a b)
              (λ a. skip) i below above,
      )

  -- The sweep stops at the first model that does not fit the memory, or after 4000 steps. It reports
  -- the last model tried before that, and nothing where the first one tried does not fit.
  pub sweep_boundary_lem :
      (stop : ℕ) × StopsAt 4000 stop
      × IsLast stop (sweep_boundary hw prefill stack_height axis layers0 hidden0)
  unfolding sweep_boundary
  sweep_boundary_lem =
      sweep_lem 4000 0 none (λ j below. absurd (omega arith)) (λ j below. absurd (omega arith))
