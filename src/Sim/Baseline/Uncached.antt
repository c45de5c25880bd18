-- ===== src/Sim/Baseline/Uncached.antt =====
-- The baseline of puls-engine/sim/baseline.cpp runs without caching: what its eligibility threshold,
-- the largest `int`, makes of the cache and of the hits.
use puls_rfc.Prelude.{
  ℕ, ◌+◌, ◌≤◌, ◌≡◌, ◌≢◌, refl, ◌⊎◌, inl, inr, false, [], ◌∷◌, arith, ltb, Bool-cases, Option-cases,
}
use puls_rfc.Double.{Double}
use puls_rfc.Cache.{
  Tier, hbm, ssd, gone, is_hbm, Entry, Index, ClusterCache, hit, find, tick, tick_all, on_complete,
  evict_tick, lookup, lookup_entry,
}
use puls_rfc.Cache.Entries.{AllEntries, put-AllEntries, find-AllEntries}

abbrev IsOut : Entry → Type 0
IsOut e = is_hbm e.tier ≡ false

-- No entry is in HBM.
abbrev pub AreOut : Index → Type 0
AreOut es = AllEntries IsOut es

Tier-cases : (t : Tier) → (t ≡ hbm) ⊎ ((t ≡ ssd) ⊎ (t ≡ gone))
Tier-cases hbm = inl refl
Tier-cases ssd = inr (inl refl)
Tier-cases gone = inr (inr refl)

tick-out :
    (bpt evict_age gone_age now : ℕ) (e : Entry) (used : ℕ → ℕ)
    → is_hbm e.tier ≡ false
    → is_hbm (tick bpt evict_age gone_age now e used).0.tier ≡ false
unfolding tick
tick-out bpt evict_age gone_age now e used h = elim (Tier-cases e.tier) [
  | inl t ↦ absurd (cc)
  | inr (inl t) ↦ elim (Bool-cases (ltb (e.last + gone_age) now)) [
    | inl old ↦ rw (t, old, tick) refl
    | inr young ↦ rw (t, young, tick) (rw t refl)
  ]
  | inr (inr t) ↦ rw (t, tick) (rw t refl)
]

tick_all-AreOut :
    (bpt evict_age gone_age now : ℕ) (es : Index) (used : ℕ → ℕ)
    → AreOut es
    → AreOut (tick_all bpt evict_age gone_age now es used).0
unfolding tick_all
tick_all-AreOut bpt evict_age gone_age now [] used h = tt
tick_all-AreOut bpt evict_age gone_age now ((k, e) ∷ es) used h = (
  tick-out bpt evict_age gone_age now e used h.0,
  tick_all-AreOut bpt evict_age gone_age now es (tick bpt evict_age gone_age now e used).1 h.1,
)

-- The cache has the threshold `top` and nothing in HBM.
pub record IsOff {W : Type 0} (top : ℕ) (c : ClusterCache W) : Type 0 where
  pub threshold : c.cfg.eligibility_threshold ≡ top
  pub out : AreOut c.idx

module _ {W : Type 0} (top : ℕ) where
  pub on_complete-IsOff :
      (node id len now : ℕ) (c : ClusterCache W)
      → len ≤ top
      → IsOff top c
      → IsOff top (on_complete node id len now c)
  unfolding on_complete
  on_complete-IsOff node id len now c small v =
      let small' : ltb c.cfg.eligibility_threshold len ≡ false = ground (arith, v.threshold) in
      rw (small', on_complete)
        (record { threshold = v.threshold; out = put-AllEntries IsOut id _ c.idx refl v.out })

  pub evict_tick-IsOff : (now : ℕ) (c : ClusterCache W) → IsOff top c → IsOff top (evict_tick now c)
  unfolding evict_tick
  evict_tick-IsOff now c v = record {
    threshold = v.threshold;
    out = tick_all-AreOut c.kv_bpt c.cfg.evict_age c.cfg.gone_age now c.idx c.node_used v.out;
  }

  module _ ⦃d : Double W⦄ where
    lookup_entry-IsOff :
        (id now : ℕ) (c : ClusterCache W) (e : Entry)
        → is_hbm e.tier ≡ false
        → IsOff top c
        → (let (lk, c') = lookup_entry id now c e in IsOff top c' × (lk.result ≢ hit))
    unfolding lookup_entry
    lookup_entry-IsOff id now c e h v = elim (Tier-cases e.tier) [
      | inl t ↦ absurd (cc)
      | inr (inl t) ↦
          rw (t, lookup_entry)
            (
              record {
                threshold = v.threshold;
                out = put-AllEntries IsOut id _ c.idx (rw t refl) v.out;
              },
              λ same. cc,
            )
      | inr (inr t) ↦
          rw (t, lookup_entry) (record { threshold = v.threshold; out = v.out }, λ same. cc)
    ]

    pub lookup-IsOff :
        (id now : ℕ) (c : ClusterCache W)
        → IsOff top c
        → (let (lk, c') = lookup id now c in IsOff top c' × (lk.result ≢ hit))
    unfolding lookup
    lookup-IsOff id now c v = elim (Option-cases (find id c.idx)) [
      | inl e ↦ rw (e, lookup) (record { threshold = v.threshold; out = v.out }, λ same. cc)
      | inr (e, f) ↦
          rw (f, lookup)
            (lookup_entry-IsOff id now c e (find-AllEntries IsOut id e c.idx v.out f) v)
    ]
