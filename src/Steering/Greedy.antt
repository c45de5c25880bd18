-- ===== src/Steering/Greedy.antt =====
-- What `steer_decode_set` (puls-engine/core/steering.cpp) promises, apart from its loops: a run of
-- picks, each of them the longest-waiting aged decoder or else a nearest one.
use puls_rfc.Prelude.{
  ℕ, ◌≤◌, ◌<◌, ◌≡◌, ◌∙◌, ◌⊎◌, inl, inr, Bool, true, false, not, ◌&&◌, none, some, List, arith,
  get_elem?, Option-cases,
}
use puls_rfc.Double.{Double, IsOrdered}
use puls_rfc.OperatingPoint.{OperatingPoint}
use puls_rfc.Scan.{scan, Selected, IsSelection, scan-some, scan-none}
use puls_rfc.Steering.Decode.{
  Decoder, slots, aged_test, wait_mark, far, dist, near_test, dist_mark, decode_ideal, choose,
}
use puls_rfc.Steering.Slots.{All-slots, slots-get}

pub aged-IsSelection : (age_cap : ℕ) → IsSelection (aged_test age_cap) wait_mark
aged-IsSelection age_cap = record { irrefl = λ x. ground arith; trans = λ s x y h k. ground arith }

module _ {W : Type 0} ⦃d : Double W⦄ where
  pub near-IsSelection : IsOrdered W → (ideal : W) → IsSelection (near_test ideal) (dist_mark ideal)
  near-IsSelection laws ideal = record {
    irrefl = λ x. ground (arith, laws.lt_irrefl (dist ideal x.1.kv_length));
    trans = λ s x y h k.
        ground (arith, laws.lt_trans (dist ideal y.1.kv_length) (dist ideal x.1.kv_length) s);
  }

  module _ (op : OperatingPoint W) (used : List Bool) (pool : List Decoder) where
    -- The decoder `x` waits at index `i` and is not used.
    abbrev pub IsFree : ℕ → Decoder → Type 0
    IsFree i x = (get_elem? used i ≡ some false) × (get_elem? pool i ≡ some x)

    -- It has reached the age cap, and no free decoder has waited longer.
    abbrev pub IsOldest : Decoder → Type 0
    IsOldest x = (op.age_cap ≤ x.wait) × ((j : ℕ) (y : Decoder) → IsFree j y → y.wait ≤ x.wait)

    -- No free decoder has reached the age cap, and none is nearer to the ideal length.
    abbrev pub IsNearest : W → Decoder → Type 0
    IsNearest ideal x =
        (j : ℕ) (y : Decoder)
        → IsFree j y
        → (y.wait < op.age_cap) × (d.lt (dist ideal y.kv_length) (dist ideal x.kv_length) ≡ false)

    abbrev pub IsChoice : W → ℕ → Decoder → Type 0
    IsChoice ideal i x = IsFree i x × (IsOldest x ⊎ IsNearest ideal x)

    -- No free decoder has reached the age cap or lies within the loop's first `best_dist`.
    abbrev pub IsExhausted : W → Type 0
    IsExhausted ideal =
        (j : ℕ) (y : Decoder)
        → IsFree j y
        → (y.wait < op.age_cap) × (d.lt (dist ideal y.kv_length) far ≡ false)

    IsFree-of :
        (p : ℕ × (Bool × Decoder)) (b : Bool)
        → get_elem? (slots used pool) p.0 ≡ some p.1
        → (not p.1.0 && b) ≡ true
        → IsFree p.0 p.1.1
    IsFree-of p b at t = let (u, x) = slots-get used pool p.0 p.1 at in ground arith

    none_aged :
        scan (aged_test op.age_cap) wait_mark 0 none none (slots used pool) ≡ none
        → (j : ℕ) (y : Decoder) → IsFree j y
        → y.wait < op.age_cap
    none_aged e j y (free, at) = ground (
      arith,
      All-slots (λ z. aged_test op.age_cap none z ≡ false) used pool j false y
          (scan-none (aged_test op.age_cap) wait_mark (aged-IsSelection op.age_cap) none
            (slots used pool) e)
          free at,
    )

    forced-IsOldest :
        (p : ℕ × (Bool × Decoder))
        → Selected (aged_test op.age_cap) wait_mark none (slots used pool) p
        → IsFree p.0 p.1.1 × IsOldest p.1.1
    forced-IsOldest p (at, t, best) = (
      IsFree-of p _ at t,
      (
        ground arith,
        λ j y (free, here). ground (
          arith,
          All-slots (λ z. aged_test op.age_cap (wait_mark p.1) z ≡ false) used pool j false y best
              free here,
        ),
      ),
    )

    module _ (laws : IsOrdered W) (left sum : ℕ) where
      near_none :
          (ideal : W)
          → scan (near_test ideal) (dist_mark ideal) 0 far none (slots used pool) ≡ none
          → (j : ℕ) (y : Decoder) → IsFree j y
          → d.lt (dist ideal y.kv_length) far ≡ false
      near_none ideal e j y (free, at) =
          All-slots (λ z. near_test ideal far z ≡ false) used pool j false y
            (scan-none (near_test ideal) (dist_mark ideal) (near-IsSelection laws ideal) far
              (slots used pool) e)
            free at

      near-IsNearest :
          (ideal : W) (p : ℕ × (Bool × Decoder))
          → ((j : ℕ) (y : Decoder) → IsFree j y → y.wait < op.age_cap)
          → Selected (near_test ideal) (dist_mark ideal) far (slots used pool) p
          → IsFree p.0 p.1.1 × IsNearest ideal p.1.1
      near-IsNearest ideal p young (at, t, best) = (
        IsFree-of p _ at t,
        λ j y free. (
          young j y free,
          All-slots (λ z. near_test ideal (dist_mark ideal p.1) z ≡ false) used pool j false y best
              free.0 free.1,
        ),
      )

      pub choose-some :
          (p : ℕ × (Bool × Decoder))
          → choose op left sum used pool ≡ some p
          → IsChoice (decode_ideal op left sum) p.0 p.1.1
      unfolding choose
      choose-some p e =
          elim (Option-cases
            (scan (aged_test op.age_cap) wait_mark 0 none none (slots used pool))) [
              | inl none_e ↦
                  let found = rw (none_e, choose) at e in
                  let (free, near) =
                    near-IsNearest (decode_ideal op left sum) p (none_aged none_e) (
                      scan-some _ _ (near-IsSelection laws (decode_ideal op left sum)) far _ p
                        found) in
                  (free, inr near)
              | inr (q, some_e) ↦
                  let same : some q ≡ some p = rw (some_e, choose) at e in
                  let (free, old) =
                    forced-IsOldest p
                      (scan-some _ _ (aged-IsSelection op.age_cap) none _ p (some_e ∙ same)) in
                  (free, inl old)
            ]

      pub choose-none : choose op left sum used pool ≡ none → IsExhausted (decode_ideal op left sum)
      unfolding choose
      choose-none e j y free =
          elim (Option-cases
            (scan (aged_test op.age_cap) wait_mark 0 none none (slots used pool))) [
              | inl none_e ↦ (
                none_aged none_e j y free,
                near_none (decode_ideal op left sum) (rw (none_e, choose) at e) j y free,
              )
              | inr (q, some_e) ↦ let same : some q ≡ none = rw (some_e, choose) at e in absurd (cc)
            ]
