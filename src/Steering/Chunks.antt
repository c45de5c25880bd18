-- ===== src/Steering/Chunks.antt =====
-- What `steer_prefill_chunks` (puls-engine/core/steering.cpp) assigns.
use puls_rfc.Prelude.{
  ℕ, ◌+◌, ◌≤◌, ◌<◌, ◌≡◌, ◌⊎◌, inl, inr, false, none, some, List, arith, sum_by, get_elem?, All-get,
  Option-cases, ◌∙◌,
}
use puls_rfc.Double.{Double, IsOrdered}
use puls_rfc.OperatingPoint.{OperatingPoint}
use puls_rfc.Scan.{IsSelection, scan, scan-some, scan-none}
use puls_rfc.Steering.Decode.{far, dist}
use puls_rfc.Steering.Prefill.{
  Assigned, spread_test, prefill_wait_mark, depth_test, depth_mark, prefill_ideal, choose_token,
}

pub spread-IsSelection : (age_cap : ℕ) → IsSelection (spread_test age_cap) prefill_wait_mark
spread-IsSelection age_cap = record {
  irrefl = λ x. ground arith;
  trans = λ s x y h k. ground arith;
}

-- The request still has prompt tokens to assign.
abbrev pub IsOpen : Assigned → Type 0
IsOpen s = s.0.processed + s.1 < s.0.prompt

-- Past the age cap, and nothing assigned yet.
abbrev pub IsDue : ℕ → Assigned → Type 0
IsDue age_cap s = (age_cap ≤ s.0.wait) × (s.1 ≡ 0) × IsOpen s

abbrev pub depth : Assigned → ℕ
depth s = s.0.processed + s.1 + 1

abbrev pub chunk_sum : List Assigned → ℕ
chunk_sum = sum_by (λ s. s.1)

module _ {W : Type 0} ⦃d : Double W⦄ (op : OperatingPoint W) (laws : IsOrdered W) where
  depth-IsSelection : (ideal : W) → IsSelection (depth_test ideal) (depth_mark ideal)
  depth-IsSelection ideal = record {
    irrefl = λ x. ground (arith, laws.lt_irrefl (depth_mark ideal x));
    trans = λ s x y h k. ground (arith, laws.lt_trans (depth_mark ideal y) (depth_mark ideal x) s);
  }

  -- The next token goes to an open request: to the longest waiting of those that are due, or, where
  -- none is due, to one whose next depth is nearest to the ideal.
  abbrev pub IsTokenChoice : W → List Assigned → ℕ × Assigned → Type 0
  IsTokenChoice ideal rows p =
      (get_elem? rows p.0 ≡ some p.1)
      × IsOpen p.1
      × (IsDue op.age_cap p.1
            × ((j : ℕ) (y : Assigned)
                → get_elem? rows j ≡ some y
                → IsDue op.age_cap y
                → y.0.wait ≤ p.1.0.wait)
          ⊎ ((j : ℕ) (y : Assigned)
              → get_elem? rows j ≡ some y
              → (IsDue op.age_cap y → ⊥)
                × (IsOpen y → d.lt (dist ideal (depth y)) (dist ideal (depth p.1)) ≡ false)))

  module _ (left work : ℕ) (rows : List Assigned) where
    none-IsDue :
        scan (spread_test op.age_cap) prefill_wait_mark 0 none none rows ≡ none
        → (j : ℕ) (y : Assigned) → get_elem? rows j ≡ some y
        → ¬ IsDue op.age_cap y
    none-IsDue e j y at due = ground (
      arith,
      All-get (λ z. spread_test op.age_cap none z ≡ false) rows j y
          (scan-none _ _ (spread-IsSelection op.age_cap) none rows e) at,
    )

    -- The request that a token goes to is the longest waiting of those that have waited `age_cap` and
    -- have no chunk yet, or, where there is none, an open one whose depth is nearest to the ideal.
    pub choose_token-some :
        (p : ℕ × Assigned)
        → choose_token op left work rows ≡ some p
        → IsTokenChoice (prefill_ideal op left work) rows p
    unfolding choose_token
    choose_token-some p e =
        let ideal = prefill_ideal op left work in
        elim (Option-cases (scan (spread_test op.age_cap) prefill_wait_mark 0 none none rows)) [
          | inl none_e ↦
              let found = rw (none_e, choose_token) at e in
              let (at, t, best) = scan-some _ _ (depth-IsSelection ideal) far rows p found in
              (
                at,
                ground arith,
                inr (λ j y here. (
                  none-IsDue none_e j y here,
                  λ open_row. ground (
                    arith,
                    All-get (λ z. depth_test ideal (depth_mark ideal p.1) z ≡ false) rows j y best
                        here,
                  ),
                )),
              )
          | inr (q, some_e) ↦
              let same : some q ≡ some p = rw (some_e, choose_token) at e in
              let (at, t, best) =
                scan-some _ _ (spread-IsSelection op.age_cap) none rows p (some_e ∙ same) in
              (
                at,
                ground arith,
                inl (
                  ground arith,
                  λ j y here due. ground (
                    arith,
                    All-get (λ z. spread_test op.age_cap (prefill_wait_mark p.1) z ≡ false) rows j y
                        best here,
                  ),
                ),
              )
        ]

    pub choose_token-none :
        choose_token op left work rows ≡ none
        → (j : ℕ) (y : Assigned) → get_elem? rows j ≡ some y
        → IsOpen y
        → d.lt (dist (prefill_ideal op left work) (depth y)) far ≡ false
    unfolding choose_token
    choose_token-none e j y at open_row =
        let ideal = prefill_ideal op left work in
        elim (Option-cases (scan (spread_test op.age_cap) prefill_wait_mark 0 none none rows)) [
          | inl none_e ↦ ground (
            arith,
            All-get (λ z. depth_test ideal far z ≡ false) rows j y
                (scan-none _ _ (depth-IsSelection ideal) far rows (rw (none_e, choose_token) at e))
                at,
          )
          | inr (q, some_e) ↦
              let same : some q ≡ none = rw (some_e, choose_token) at e in absurd (cc)
        ]
