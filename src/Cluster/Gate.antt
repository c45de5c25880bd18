-- ===== src/Cluster/Gate.antt =====
-- What `gate` keeps and sheds (puls-engine/core/global_scheduler.cpp).
use mathlib.Core.List.Perm
use mathlib.Core.List.{Perm}
use puls_rfc.Prelude.{
  ℕ, ◌-◌, ◌≤◌, ◌≡◌, refl, Bool, true, false, List, [], ◌∷◌, ◌++◌, arith, ltb, length, All,
  Bool-cases, inl, inr, ap, ltb→lt, ltb→le, subst,
}
use puls_rfc.Double.{Double}
use puls_rfc.OperatingPoint.{OperatingPoint}
use puls_rfc.Cluster.Defs.{
  GateResult, sum, insert_desc, sort_desc, quotient, gate_ceil, gate_loop, gate,
}

-- No later length exceeds an earlier one.
abbrev pub IsDescending : List ℕ → Type 0
IsDescending [] = Unit {0}
IsDescending (x ∷ xs) = All (λ y. y ≤ x) xs × IsDescending xs

insert_desc-perm : (x : ℕ) (xs : List ℕ) → Perm (x ∷ xs) (insert_desc x xs)
unfolding insert_desc
insert_desc-perm x [] = Perm.refl (x ∷ [])
insert_desc-perm x (y ∷ ys) = elim (Bool-cases (ltb x y)) [
  | inl below ↦ rw below (Perm.trans (Perm.swap y x ys) (Perm.cons y (insert_desc-perm x ys)))
  | inr above ↦ rw above (Perm.refl (x ∷ y ∷ ys))
]

sort_desc-perm : (xs : List ℕ) → Perm xs (sort_desc xs)
unfolding sort_desc
sort_desc-perm [] = Perm.refl []
sort_desc-perm (x ∷ xs) =
    Perm.trans (Perm.cons x (sort_desc-perm xs)) (insert_desc-perm x (sort_desc xs))

All-insert_desc :
    (b x : ℕ) (xs : List ℕ) → x ≤ b → All (λ y. y ≤ b) xs → All (λ y. y ≤ b) (insert_desc x xs)
unfolding insert_desc
All-insert_desc b x [] h hs = (h, tt)
All-insert_desc b x (y ∷ ys) h (hy, hs) = elim (Bool-cases (ltb x y)) [
  | inl below ↦ rw below (hy, All-insert_desc b x ys h hs)
  | inr above ↦ rw above (h, (hy, hs))
]

All-weaken : (a b : ℕ) (xs : List ℕ) → a ≤ b → All (λ y. y ≤ a) xs → All (λ y. y ≤ b) xs
All-weaken a b [] h hs = tt
All-weaken a b (x ∷ xs) h (hx, hs) = (omega arith, All-weaken a b xs h hs)

insert_desc-IsDescending : (x : ℕ) (xs : List ℕ) → IsDescending xs → IsDescending (insert_desc x xs)
unfolding insert_desc
insert_desc-IsDescending x [] h = (tt, tt)
insert_desc-IsDescending x (y ∷ ys) (top, rest) = elim (Bool-cases (ltb x y)) [
  | inl below ↦ rw below (
    All-insert_desc y x ys (omega (arith, ltb→lt _ _ below)) top,
    insert_desc-IsDescending x ys rest,
  )
  | inr above ↦ let le = ltb→le _ _ above in rw above ((le, All-weaken y x ys le top), (top, rest))
]

sort_desc-IsDescending : (xs : List ℕ) → IsDescending (sort_desc xs)
unfolding sort_desc
sort_desc-IsDescending [] = tt
sort_desc-IsDescending (x ∷ xs) =
    insert_desc-IsDescending x (sort_desc xs) (sort_desc-IsDescending xs)

module _ {W : Type 0} ⦃d : Double W⦄ (op : OperatingPoint W) where
  -- The mean of the lengths exceeds the gate's ceiling.
  abbrev pub exceeds : List ℕ → Bool
  exceeds xs = d.lt (gate_ceil op) (quotient (sum xs) (length xs))

  -- What is kept is empty or does not exceed the ceiling.
  abbrev pub IsCalm : List ℕ → Type 0
  IsCalm [] = Unit {0}
  IsCalm (x ∷ xs) = exceeds (x ∷ xs) ≡ false

  -- Each length that was shed was the first of a rest that exceeded the ceiling.
  abbrev pub IsNeeded : List ℕ → List ℕ → Type 0
  IsNeeded [] kept = Unit {0}
  IsNeeded (x ∷ es) kept = (exceeds (x ∷ (es ++ kept)) ≡ true) × IsNeeded es kept

  abbrev Loop : List ℕ → GateResult → Type 0
  Loop xs r = (r.edged ++ r.kept ≡ xs) × IsCalm r.kept × IsNeeded r.edged r.kept

  gate_loop_lem : (total : ℕ) (xs : List ℕ) → total ≡ sum xs → Loop xs (gate_loop op total xs)
  unfolding gate_loop
  gate_loop_lem total [] h = (refl, tt, tt)
  gate_loop_lem total (x ∷ xs) h =
      let (whole, calm, needed) = gate_loop_lem (total - x) xs (omega arith) in
      elim (Bool-cases (d.lt (gate_ceil op) (quotient total (length (x ∷ xs))))) [
        | inl over ↦
            rw (over, gate_loop)
              (
                ap (◌∷◌ x) whole,
                calm,
                (
                  rw whole (
                      subst (λ t. d.lt (gate_ceil op) (quotient t (length (x ∷ xs))) ≡ true) h
                        over),
                  needed,
                ),
              )
        | inr under ↦
            rw (under, gate_loop)
              (
                refl,
                subst (λ t. d.lt (gate_ceil op) (quotient t (length (x ∷ xs))) ≡ false) h under,
                tt,
              )
      ]

  -- The gate splits the draw into the shed lengths and the kept ones, all the shed ones before the
  -- kept ones in descending order. The mean of what is kept does not exceed
  -- `ctx_balance + edge_band`, and each length was shed because the mean of it and of all that came
  -- after it did.
  pub gate_lem :
      (draw : List ℕ)
      → let r = gate op draw in
        Perm draw (r.edged ++ r.kept)
        × IsDescending (r.edged ++ r.kept)
        × IsCalm r.kept
        × IsNeeded r.edged r.kept
  unfolding gate
  gate_lem draw =
      let sorted = sort_desc draw in
      let (whole, calm, needed) = gate_loop_lem (sum sorted) sorted refl in
      (rw whole (sort_desc-perm draw), rw whole (sort_desc-IsDescending draw), calm, needed)
