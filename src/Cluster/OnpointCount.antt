-- ===== src/Cluster/OnpointCount.antt =====
-- The on-point batches are disjoint: a node has room for as many as it counts
-- (`onpoint_batches` of puls-engine/core/global_scheduler.cpp).
use puls_rfc.Prelude.{
  ℕ, zero, suc, ◌+◌, ◌*◌, ◌≤◌, ◌<◌, ◌≡◌, refl, Bool, true, false, not, ◌&&◌, Option, none, some,
  List, [], ◌∷◌, ℤ, arith, ltb, leb, length, length-set, length-replicate, get_elem?, get_or, set,
  replicate, if◌then◌else◌, Bool-cases, Option-cases, inl, inr, some-injective, subst,
}
use puls_rfc.Double.{Double}
use puls_rfc.OperatingPoint.{OperatingPoint}
use puls_rfc.Cluster.Defs.{ClusterNode, count}
use puls_rfc.Cluster.Onpoint.{
  insert_asc, sort_asc, lower_bound, left_free, right_free, nearer, Composed, onpoint_ideal,
  onpoint_pick, compose, is_onpoint, onpoint_loop, onpoint_batches,
}

pub trues : List Bool → ℕ
trues [] = 0
trues (u ∷ us) = (if u then 1 else 0) + trues us

trues-le : (us : List Bool) → trues us ≤ length us
unfolding trues
trues-le [] = omega arith
trues-le (u ∷ us) = ground (arith, trues-le us)

trues-replicate : (n : ℕ) → trues (replicate n false) ≡ 0
unfolding trues
trues-replicate zero = refl
trues-replicate (suc n) = omega (arith, trues-replicate n)

trues-set :
    (us : List Bool) (i : ℕ) → get_elem? us i ≡ some false → trues (set us i true) ≡ trues us + 1
unfolding trues
trues-set [] i h = absurd (cc)
trues-set (u ∷ us) zero h = ground arith
trues-set (u ∷ us) (suc i) h = omega (arith, trues-set us i h)

get-in_range :
    (us : List Bool) (i : ℕ)
    → i < length us
    → get_or us i false ≡ false
    → get_elem? us i ≡ some false
get-in_range [] i h k = absurd (omega arith)
get-in_range (u ∷ us) zero h k = cc
get-in_range (u ∷ us) (suc i) h k = get-in_range us i (omega arith) k

left_free-unused :
    (us : List Bool) (p l : ℕ)
    → p ≤ length us
    → left_free us p ≡ some l
    → get_elem? us l ≡ some false
unfolding left_free
left_free-unused us zero l h e = absurd (cc)
left_free-unused us (suc p) l h e = elim (Bool-cases (get_or us p false)) [
  | inl taken ↦ left_free-unused us p l (omega arith) (rw (taken, left_free) at e)
  | inr free ↦
      let same : some p ≡ some l = rw (free, left_free) at e in
      subst (λ k. get_elem? us k ≡ some false) (some-injective p l same)
        (get-in_range us p (omega arith) free)
]

right_free-unused :
    (from i r : ℕ) (us : List Bool)
    → right_free from i us ≡ some r
    → (k : ℕ) × (r ≡ i + k) × (get_elem? us k ≡ some false)
unfolding right_free
right_free-unused from i r [] e = absurd (cc)
right_free-unused from i r (u ∷ us) e = elim (Bool-cases (leb from i && not u)) [
  | inl here ↦
      let same : some i ≡ some r = rw (here, right_free) at e in
      (0, omega (arith, some-injective i r same), ground arith)
  | inr later ↦
      let (k, at, free) = right_free-unused from (suc i) r us (rw (later, right_free) at e) in
      (suc k, omega arith, free)
]

lower_bound-le : (ideal : ℤ) (xs : List ℕ) → lower_bound ideal xs ≤ length xs
unfolding lower_bound
lower_bound-le ideal [] = omega arith
lower_bound-le ideal (x ∷ xs) = ground (arith, lower_bound-le ideal xs)

length-insert_asc : (x : ℕ) (xs : List ℕ) → length (insert_asc x xs) ≡ length xs + 1
unfolding insert_asc
length-insert_asc x [] = omega arith
length-insert_asc x (y ∷ ys) = ground (arith, length-insert_asc x ys)

length-sort_asc : (xs : List ℕ) → length (sort_asc xs) ≡ length xs
unfolding sort_asc
length-sort_asc [] = refl
length-sort_asc (x ∷ xs) = omega (arith, length-sort_asc xs, length-insert_asc x (sort_asc xs))

-- What `nearer` returns is one of its two candidates.
nearer-one_of :
    (P : ℕ → Type 0) (ideal : ℤ) (a : List ℕ) (l r : Option ℕ) (b : ℕ)
    → nearer ideal a l r ≡ some b
    → ((i : ℕ) → l ≡ some i → P i)
    → ((i : ℕ) → r ≡ some i → P i)
    → P b
unfolding nearer
nearer-one_of P ideal a none r b e hl hr = hr b e
nearer-one_of P ideal a (some l) none b e hl hr = hl b e
nearer-one_of P ideal a (some l) (some r) b e hl hr = ground (arith, hl b, hr b)

module _ {W : Type 0} ⦃d : Double W⦄ (op : OperatingPoint W) (a : List ℕ) where
  onpoint_pick-unused :
      (left sum : ℕ) (used : List Bool) (b : ℕ)
      → length used ≡ length a
      → onpoint_pick op a left sum used ≡ some b
      → get_elem? used b ≡ some false
  unfolding onpoint_pick
  onpoint_pick-unused left sum used b same e =
      let ideal = onpoint_ideal op left sum in
      let at = lower_bound ideal a in
      nearer-one_of (λ i. get_elem? used i ≡ some false) ideal a (left_free used at)
        (right_free at 0 used) b e
        (λ i h. left_free-unused used at i (omega (arith, lower_bound-le ideal a)) h)
        (λ i h. on_right i (right_free-unused at 0 i used h))
    where
      on_right :
          (i : ℕ)
          → ((k : ℕ) × (i ≡ 0 + k) × (get_elem? used k ≡ some false))
          → get_elem? used i ≡ some false
      on_right i (k, at, free) =
          let same : k ≡ i = omega arith in subst (λ n. get_elem? used n ≡ some false) same free

  -- Every pick of a batch takes a decoder that was unused.
  pub compose-trues :
      (left sum : ℕ) (used : List Bool)
      → length used ≡ length a
      → let b = compose op a left sum used in
        (trues b.used + b.missing ≡ trues used + left) × (length b.used ≡ length a)
  unfolding compose
  compose-trues zero sum used same = (refl, same)
  compose-trues (suc left) sum used same = elim (Bool-cases (ltb sum op.kv_operating_target)) [
    | inr above ↦ rw (above, compose) (refl, same)
    | inl below ↦ elim (Option-cases (onpoint_pick op a (suc left) sum used)) [
      | inl e ↦ rw (below, e, compose) (refl, same)
      | inr (best, e) ↦
          let free = onpoint_pick-unused (suc left) sum used best same e in
          let (counted, sized) =
            compose-trues left (sum + get_or a best 0) (set used best true)
              (omega (arith, length-set used best true)) in
          rw (below, e, compose) (omega (arith, counted, trues-set used best free), sized)
    ]
  ]

  is_onpoint-full : (b : Composed) → is_onpoint op b ≡ true → b.missing ≡ 0
  unfolding is_onpoint
  is_onpoint-full b h = ground arith

  onpoint_loop-le :
      (k : ℕ) (used : List Bool)
      → length used ≡ length a
      → (trues used + onpoint_loop op a k used * op.decode_count_target ≤ length a)
        × (onpoint_loop op a k used ≤ k)
  unfolding onpoint_loop
  onpoint_loop-le zero used same = (omega (arith, trues-le used), omega arith)
  onpoint_loop-le (suc k) used same =
      let b = compose op a op.decode_count_target 0 used in
      elim (Bool-cases (is_onpoint op b)) [
        | inl ok ↦
            let (counted, sized) = compose-trues op.decode_count_target 0 used same in
            let (rest, few) = onpoint_loop-le k b.used sized in
            rw (ok, onpoint_loop) (omega (arith, rest, counted, is_onpoint-full b ok), omega arith)
        | inr bad ↦ rw (bad, onpoint_loop) (omega (arith, trues-le used), omega arith)
      ]

module _ {W : Type 0} ⦃d : Double W⦄ (op : OperatingPoint W) where
  -- The on-point batches are at most as many as asked for, and, since no decoder serves in two of
  -- them, together no larger than the node.
  pub onpoint_batches-le :
      (node : ClusterNode) (k : ℕ)
      → (onpoint_batches op node k * op.decode_count_target ≤ count node)
        × (onpoint_batches op node k ≤ k)
  unfolding onpoint_batches
  onpoint_batches-le node k = elim (Bool-cases (ltb (count node) op.decode_count_target)) [
    | inl small ↦ rw (small, onpoint_batches) (omega arith)
    | inr large ↦
        let used = replicate (count node) false in
        let (fits, few) =
          onpoint_loop-le op (sort_asc node.lengths) k used
            (omega (arith, length-sort_asc node.lengths, length-replicate (count node) false)) in
        rw (large, onpoint_batches) (omega (arith, fits, length-sort_asc node.lengths), few)
  ]
