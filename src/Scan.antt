-- ===== src/Scan.antt =====
-- The selection loops: a left-to-right scan that keeps the first best candidate. `test s x` asks
-- whether `x` improves on the standing mark `s`, and `mark x` is the mark that `x` sets.
use puls_rfc.Prelude.{
  ℕ, suc, ◌+◌, ◌≡◌, refl, Bool, true, false, Option, none, some, List, [], ◌∷◌, ◌⊎◌, inl, inr,
  arith, if◌then◌else◌, Bool-cases, get_elem?, All, ap, subst, sym, ◌∙◌,
}
use native.Mathlib.Nat.{zero-add}
use mathlib.Core.Option.{some-injective}

module _ {A S : Type 0} (test : S → A → Bool) (mark : A → S) where
  unfoldable pub scan : ℕ → S → Option (ℕ × A) → List A → Option (ℕ × A)
  scan i s best [] = best
  scan i s best (x ∷ xs) =
      let hit = test s x in
      scan (suc i) (if hit then mark x else s) (if hit then some (i, x) else best) xs

  scan-cons_hit :
      (i : ℕ) (s : S) (best : Option (ℕ × A)) (x : A) (xs : List A)
      → test s x ≡ true
      → scan i s best (x ∷ xs) ≡ scan (suc i) (mark x) (some (i, x)) xs
  unfolding scan
  scan-cons_hit i s best x xs h = rw h

  scan-cons_miss :
      (i : ℕ) (s : S) (best : Option (ℕ × A)) (x : A) (xs : List A)
      → test s x ≡ false
      → scan i s best (x ∷ xs) ≡ scan (suc i) s best xs
  unfolding scan
  scan-cons_miss i s best x xs h = rw h

  -- The scan kept its candidate because nothing improved on the mark, or it found a candidate that
  -- improves on the mark and on which nothing improves.
  abbrev pub Scanned : ℕ → S → Option (ℕ × A) → List A → Option (ℕ × A) → Type 0
  Scanned i s best xs r =
      (r ≡ best) × All (λ z. test s z ≡ false) xs
      ⊎ ((k : ℕ) × (y : A) × (r ≡ some (i + k, y))
          × (get_elem? xs k ≡ some y)
          × (test s y ≡ true)
          × All (λ z. test (mark y) z ≡ false) xs)

  -- What a scan from nothing returns stands in the list, improves on the mark `s`, and is such
  -- that nothing in the list improves on it.
  abbrev pub Selected : S → List A → ℕ × A → Type 0
  Selected s xs p =
      (get_elem? xs p.0 ≡ some p.1) × (test s p.1 ≡ true) × All (λ z. test (mark p.1) z ≡ false) xs

  pub record IsSelection : Type 0 where
    pub irrefl : (x : A) → test (mark x) x ≡ false
    pub trans : (s : S) (x y : A) → test s x ≡ true → test (mark x) y ≡ true → test s y ≡ true

  module _ (laws : IsSelection) where
    open laws use {irrefl, trans}

    asym : (x y : A) → test (mark x) y ≡ true → test (mark y) x ≡ false
    asym x y h = ground (arith, irrefl y, trans (mark y) x y)

    after_hit :
        (i : ℕ) (s : S) (best : Option (ℕ × A)) (x : A) (xs : List A) (r : Option (ℕ × A))
        → test s x ≡ true
        → Scanned (suc i) (mark x) (some (i, x)) xs r
        → Scanned i s best (x ∷ xs) r
    after_hit i s best x xs r hit (inl (same, none_better)) =
        inr
          (0, x, rw same (ap (λ n. some (n, x)) (omega arith)), refl, hit, (irrefl x, none_better))
    after_hit i s best x xs r hit (inr (k, y, found, at, better, none_better)) = inr (
      suc k,
      y,
      rw found (ap (λ n. some (n, y)) (omega arith)),
      at,
      trans s x y hit better,
      (asym x y better, none_better),
    )

    after_miss :
        (i : ℕ) (s : S) (best : Option (ℕ × A)) (x : A) (xs : List A) (r : Option (ℕ × A))
        → test s x ≡ false
        → Scanned (suc i) s best xs r
        → Scanned i s best (x ∷ xs) r
    after_miss i s best x xs r miss (inl (same, none_better)) = inl (same, (miss, none_better))
    after_miss i s best x xs r miss (inr (k, y, found, at, better, none_better)) =
        inr (
          suc k,
          y,
          rw found (ap (λ n. some (n, y)) (omega arith)),
          at,
          better,
          (worse, none_better),
        )
      where
        worse : test (mark y) x ≡ false
        worse = elim (Bool-cases (test (mark y) x)) [
          | inl up ↦ ground (arith, trans s y x better up)
          | inr down ↦ down
        ]

    pub scan_lem :
        (i : ℕ) (s : S) (best : Option (ℕ × A)) (xs : List A)
        → Scanned i s best xs (scan i s best xs)
    unfolding scan
    scan_lem i s best [] = inl (refl, tt)
    scan_lem i s best (x ∷ xs) = elim (Bool-cases (test s x)) [
      | inl hit ↦
          subst (Scanned i s best (x ∷ xs)) (sym (scan-cons_hit i s best x xs hit))
            (after_hit i s best x xs _ hit (scan_lem (suc i) (mark x) (some (i, x)) xs))
      | inr miss ↦
          subst (Scanned i s best (x ∷ xs)) (sym (scan-cons_miss i s best x xs miss))
            (after_miss i s best x xs _ miss (scan_lem (suc i) s best xs))
    ]

    pub scan-some : (s : S) (xs : List A) (p : ℕ × A) → scan 0 s none xs ≡ some p → Selected s xs p
    scan-some s xs p e = from (scan_lem 0 s none xs)
      where
        from : Scanned 0 s none xs (scan 0 s none xs) → Selected s xs p
        from (inl (same, _)) = absurd (cc)
        from (inr (k, z, found, at, better, none_better)) =
            subst (Selected s xs) (some-injective (0 + k, z) p (sym found ∙ e))
              (rw zero-add at, better, none_better)

    pub scan-none : (s : S) (xs : List A) → scan 0 s none xs ≡ none → All (λ z. test s z ≡ false) xs
    scan-none s xs e = from (scan_lem 0 s none xs)
      where
        from : Scanned 0 s none xs (scan 0 s none xs) → All (λ z. test s z ≡ false) xs
        from (inl (_, none_better)) = none_better
        from (inr (k, z, found, _, _, _)) = absurd (cc)
