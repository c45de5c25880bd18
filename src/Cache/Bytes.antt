-- ===== src/Cache/Bytes.antt =====
-- The HBM bytes of the entries on a node, and how the helpers of
-- puls-engine/scheduler/cache.cpp change them.
use puls_rfc.Prelude.{
  ℕ, zero, suc, ◌+◌, ◌-◌, ◌*◌, ◌≤◌, ◌≡◌, refl, true, false, ◌&&◌, Option, none, some, [], ◌∷◌, ◌==◌,
  length, if◌then◌else◌, get_elem?, All, arith, Bool-cases, inl, inr,
}
use puls_rfc.Cache.Defs.{
  hbm, ssd, Entry, Index, is_hbm, find, put, give_back, tick, tick_all, set_tier, victim_test,
}

unfoldable pub entry_bytes : ℕ → ℕ → Entry → ℕ
entry_bytes bpt n e = if is_hbm e.tier && e.node == n then e.len * bpt else 0

unfoldable pub hbm_bytes : ℕ → ℕ → Index → ℕ
hbm_bytes bpt n [] = 0
hbm_bytes bpt n (p ∷ es) = entry_bytes bpt n p.1 + hbm_bytes bpt n es

-- How many entries are in HBM on the node.
unfoldable pub hbm_count : ℕ → Index → ℕ
hbm_count n [] = 0
hbm_count n (p ∷ es) = (if is_hbm p.1.tier && p.1.node == n then 1 else 0) + hbm_count n es

unfoldable pub found_bytes : ℕ → ℕ → Option Entry → ℕ
found_bytes bpt n none = 0
found_bytes bpt n (some e) = entry_bytes bpt n e

module _ (bpt n : ℕ) where
  pub entry_bytes-not_hbm : (e : Entry) → is_hbm e.tier ≡ false → entry_bytes bpt n e ≡ 0
  unfolding entry_bytes
  entry_bytes-not_hbm e h = ground arith

  pub entry_bytes-hbm :
      (e : Entry) → e.tier ≡ hbm → entry_bytes bpt n e ≡ (if e.node == n then e.len * bpt else 0)
  unfolding entry_bytes
  entry_bytes-hbm e h = rw h

  pub entry_bytes-on :
      (node : ℕ) (e : Entry)
      → (is_hbm e.tier && e.node == node) ≡ true
      → entry_bytes bpt n e ≡ (if n == node then e.len * bpt else 0)
  unfolding entry_bytes
  entry_bytes-on node e h = ground arith

  pub hbm_bytes-put :
      (id : ℕ) (e : Entry) (es : Index)
      → hbm_bytes bpt n (put id e es) + found_bytes bpt n (find id es)
        ≡ hbm_bytes bpt n es + entry_bytes bpt n e
  unfolding hbm_bytes put find found_bytes
  hbm_bytes-put id e [] = omega arith
  hbm_bytes-put id e ((k, f) ∷ es) = elim (Bool-cases (k == id)) [
    | inl here ↦ rw here (omega arith)
    | inr later ↦ rw later (omega (arith, hbm_bytes-put id e es))
  ]

  pub found_bytes-le : (id : ℕ) (es : Index) → found_bytes bpt n (find id es) ≤ hbm_bytes bpt n es
  unfolding hbm_bytes find found_bytes
  found_bytes-le id [] = omega arith
  found_bytes-le id ((k, f) ∷ es) = elim (Bool-cases (k == id)) [
    | inl here ↦ rw here (omega arith)
    | inr later ↦ rw later (omega (arith, found_bytes-le id es))
  ]

  pub give_back-lem :
      (e : Entry) (used : ℕ → ℕ) → give_back bpt e used n ≡ used n - entry_bytes bpt n e
  unfolding give_back entry_bytes
  give_back-lem e used = ground arith

  pub hbm_bytes-set_tier :
      (es : Index) (i k : ℕ) (e : Entry)
      → get_elem? es i ≡ some (k, e)
      → hbm_bytes bpt n (set_tier es i ssd) + entry_bytes bpt n e ≡ hbm_bytes bpt n es
  unfolding hbm_bytes entry_bytes
  hbm_bytes-set_tier [] i k e h = absurd (cc)
  hbm_bytes-set_tier ((j, f) ∷ es) zero k e h = ground arith
  hbm_bytes-set_tier ((j, f) ∷ es) (suc i) k e h = omega (arith, hbm_bytes-set_tier es i k e h)

pub hbm_count-set_tier :
    (n : ℕ) (es : Index) (i k : ℕ) (e : Entry)
    → get_elem? es i ≡ some (k, e)
    → (is_hbm e.tier && e.node == n) ≡ true
    → hbm_count n (set_tier es i ssd) + 1 ≡ hbm_count n es
unfolding hbm_count
hbm_count-set_tier n [] i k e h t = absurd (cc)
hbm_count-set_tier n ((j, f) ∷ es) zero k e h t = ground arith
hbm_count-set_tier n ((j, f) ∷ es) (suc i) k e h t =
    omega (arith, hbm_count-set_tier n es i k e h t)

pub hbm_count-le : (n : ℕ) (es : Index) → hbm_count n es ≤ length es
unfolding hbm_count
hbm_count-le n [] = omega arith
hbm_count-le n (p ∷ es) = ground (arith, hbm_count-le n es)

pub hbm_bytes-none :
    (bpt n : ℕ) (es : Index) → All (λ p. victim_test n none p ≡ false) es → hbm_bytes bpt n es ≡ 0
unfolding hbm_bytes entry_bytes
hbm_bytes-none bpt n [] h = refl
hbm_bytes-none bpt n ((k, e) ∷ es) (h, hs) = ground (arith, hbm_bytes-none bpt n es hs)

module _ (bpt evict_age gone_age now : ℕ) where
  -- The bytes that a tick takes off a node are those of the entries that leave HBM there.
  pub tick-bytes :
      (n : ℕ) (e : Entry) (used : ℕ → ℕ)
      → entry_bytes bpt n e ≤ used n
      → let (e', used') = tick bpt evict_age gone_age now e used in
        used' n + entry_bytes bpt n e ≡ used n + entry_bytes bpt n e'
  unfolding tick entry_bytes
  tick-bytes n e used h = ground arith

  pub tick_all-bytes :
      (n : ℕ) (es : Index) (used : ℕ → ℕ)
      → hbm_bytes bpt n es ≤ used n
      → let (es', used') = tick_all bpt evict_age gone_age now es used in
        used' n + hbm_bytes bpt n es ≡ used n + hbm_bytes bpt n es'
  unfolding tick_all hbm_bytes
  tick_all-bytes n [] used h = omega arith
  tick_all-bytes n ((k, e) ∷ es) used h =
      let (e', used') = tick bpt evict_age gone_age now e used in
      let one = tick-bytes n e used (omega arith) in
      omega (arith, one, tick_all-bytes n es used' (omega arith))

pub hbm_bytes_of_count : (bpt n : ℕ) (es : Index) → hbm_count n es ≡ 0 → hbm_bytes bpt n es ≡ 0
unfolding hbm_bytes hbm_count entry_bytes
hbm_bytes_of_count bpt n [] h = refl
hbm_bytes_of_count bpt n (p ∷ es) h = ground (arith, hbm_bytes_of_count bpt n es)

tick-le :
    (bpt evict_age gone_age now n : ℕ) (e : Entry) (used : ℕ → ℕ)
    → (tick bpt evict_age gone_age now e used).1 n ≤ used n
unfolding tick
tick-le bpt evict_age gone_age now n e used = ground arith

pub tick_all-le :
    (bpt evict_age gone_age now n : ℕ) (es : Index) (used : ℕ → ℕ)
    → (tick_all bpt evict_age gone_age now es used).1 n ≤ used n
unfolding tick_all
tick_all-le bpt evict_age gone_age now n [] used = omega arith
tick_all-le bpt evict_age gone_age now n ((k, e) ∷ es) used =
    let used' = (tick bpt evict_age gone_age now e used).1 in
    omega (
      arith,
      tick-le bpt evict_age gone_age now n e used,
      tick_all-le bpt evict_age gone_age now n es used',
    )
