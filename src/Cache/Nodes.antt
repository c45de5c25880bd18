-- ===== src/Cache/Nodes.antt =====
-- Which nodes the entries of the cache (puls-engine/scheduler/cache.cpp) name: those that the
-- completions were on.
use puls_rfc.Prelude.{
  ℕ, zero, suc, ◌+◌, ◌*◌, ◌-◌, ◌<◌, ◌≡◌, inl, inr, ◌&&◌, none, some, [], ◌∷◌, ℤ, pos_part, ltb, leb,
  length, Bool-cases, Option-cases, if◌then◌else◌, subst, some-injective,
}
use puls_rfc.Double.{Double}
use puls_rfc.Scan.{scan}
use puls_rfc.Cache.Defs.{
  Tier, hbm, ssd, gone, is_hbm, Entry, Index, ClusterCache, victim_test, last_mark, find, update,
  tick, tick_all, set_tier, shrink, reclaimed, on_complete, evict_tick, enforce_budget, peek_entry,
  peek, lookup_entry, lookup,
}
use puls_rfc.Cache.Entries.{AllEntries, put-AllEntries, find-AllEntries}

module _ (z : ℕ) where
  abbrev pub IsNear : Entry → Type 0
  IsNear e = e.node < z

  -- All entries are on the first `z` nodes.
  abbrev pub IsLocal : {W : Type 0} → ClusterCache W → Type 0
  IsLocal c = AllEntries IsNear c.idx

  tick-IsNear :
      (bpt evict_age gone_age now : ℕ) (e : Entry) (used : ℕ → ℕ)
      → IsNear e
      → IsNear (tick bpt evict_age gone_age now e used).0
  unfolding tick
  tick-IsNear bpt evict_age gone_age now e used h =
      elim (Bool-cases (is_hbm e.tier && ltb (e.last + evict_age) now)) [
        | inl out ↦ rw (out, tick) h
        | inr keep ↦ rw (keep, tick) (by_tier e.tier)
      ]
    where
      by_tier :
          (t : Tier)
          → IsNear
              (elim t as (λ x. Entry × (ℕ → ℕ)) [
                | ssd ↦ (if ltb (e.last + gone_age) now then record e { tier = gone } else e, used)
                | hbm ↦ (e, used)
                | gone ↦ (e, used)
              ]).0
      by_tier hbm = h
      by_tier gone = h
      by_tier ssd = elim (Bool-cases (ltb (e.last + gone_age) now)) [
        | inl old ↦ rw old h
        | inr young ↦ rw young h
      ]

  tick_all-AllEntries :
      (bpt evict_age gone_age now : ℕ) (es : Index) (used : ℕ → ℕ)
      → AllEntries IsNear es
      → AllEntries IsNear (tick_all bpt evict_age gone_age now es used).0
  unfolding tick_all
  tick_all-AllEntries bpt evict_age gone_age now [] used h = tt
  tick_all-AllEntries bpt evict_age gone_age now ((k, e) ∷ es) used h = (
    tick-IsNear bpt evict_age gone_age now e used h.0,
    tick_all-AllEntries bpt evict_age gone_age now es (tick bpt evict_age gone_age now e used).1
        h.1,
  )

  set_tier-AllEntries :
      (es : Index) (i : ℕ) (t : Tier) → AllEntries IsNear es → AllEntries IsNear (set_tier es i t)
  set_tier-AllEntries [] i t h = tt
  set_tier-AllEntries ((k, e) ∷ es) zero t h = h
  set_tier-AllEntries ((k, e) ∷ es) (suc i) t h = (h.0, set_tier-AllEntries es i t h.1)

  shrink-AllEntries :
      (bpt node budget fuel : ℕ) (es : Index) (used : ℕ → ℕ)
      → AllEntries IsNear es
      → AllEntries IsNear (shrink bpt node budget fuel es used).0
  unfolding shrink
  shrink-AllEntries bpt node budget zero es used h = h
  shrink-AllEntries bpt node budget (suc fuel) es used h =
      elim (Bool-cases (ltb budget (used node))) [
        | inr within ↦ rw (within, shrink) h
        | inl over ↦ elim (Option-cases (scan (victim_test node) last_mark 0 none none es)) [
          | inl e ↦ rw (over, e, shrink) h
          | inr (p, e) ↦
              rw (over, e, shrink)
                (shrink-AllEntries bpt node budget fuel (set_tier es p.0 ssd)
                  (update used node (used node - p.1.1.len * bpt))
                  (set_tier-AllEntries es p.0 ssd h))
        ]
      ]

  module _ {W : Type 0} where
    pub on_complete-IsLocal :
        (node id len now : ℕ) (c : ClusterCache W)
        → node < z
        → IsLocal c
        → IsLocal (on_complete node id len now c)
    unfolding on_complete
    on_complete-IsLocal node id len now c near v =
        elim (Bool-cases (
          ltb c.cfg.eligibility_threshold len
          && leb (reclaimed id c node + len * c.kv_bpt) (c.node_budget node))) [
            | inl in_hbm ↦ rw (in_hbm, on_complete) (put-AllEntries IsNear id _ c.idx near v)
            | inr on_ssd ↦ rw (on_ssd, on_complete) (put-AllEntries IsNear id _ c.idx near v)
          ]

    pub evict_tick-IsLocal : (now : ℕ) (c : ClusterCache W) → IsLocal c → IsLocal (evict_tick now c)
    unfolding evict_tick
    evict_tick-IsLocal now c v =
        tick_all-AllEntries c.kv_bpt c.cfg.evict_age c.cfg.gone_age now c.idx c.node_used v

    pub enforce_budget-IsLocal :
        (node : ℕ) (budget : ℤ) (c : ClusterCache W)
        → IsLocal c
        → IsLocal (enforce_budget node budget c)
    unfolding enforce_budget
    enforce_budget-IsLocal node budget c v =
        shrink-AllEntries c.kv_bpt node (pos_part budget) (length c.idx) c.idx c.node_used v

    module _ ⦃d : Double W⦄ where
      lookup_entry-IsLocal :
          (id now : ℕ) (c : ClusterCache W) (e : Entry)
          → IsNear e
          → IsLocal c
          → IsLocal (lookup_entry id now c e).1
      unfolding lookup_entry
      lookup_entry-IsLocal id now c e near v = by_tier e.tier
        where
          by_tier : (t : Tier) → IsLocal (lookup_entry id now c (record e { tier = t })).1
          by_tier hbm = put-AllEntries IsNear id _ c.idx near v
          by_tier ssd = put-AllEntries IsNear id _ c.idx near v
          by_tier gone = v

      pub lookup-IsLocal :
          (id now : ℕ) (c : ClusterCache W) → IsLocal c → IsLocal (lookup id now c).1
      unfolding lookup
      lookup-IsLocal id now c v = elim (Option-cases (find id c.idx)) [
        | inl e ↦ rw (e, lookup) v
        | inr (e, f) ↦
            rw (f, lookup)
              (lookup_entry-IsLocal id now c e (find-AllEntries IsNear id e c.idx v f) v)
      ]

      peek_entry-node :
          (c : ClusterCache W) (e : Entry) (n : ℕ)
          → IsNear e
          → (peek_entry c e).node ≡ some n
          → n < z
      unfolding peek_entry
      peek_entry-node c e n near h = by_tier e.tier h
        where
          by_tier : (t : Tier) → (peek_entry c (record e { tier = t })).node ≡ some n → n < z
          by_tier hbm h = subst (λ m. m < z) (some-injective e.node n h) near
          by_tier ssd h = subst (λ m. m < z) (some-injective e.node n h) near
          by_tier gone h = absurd (cc)

      -- A node that `peek` answers is one of them.
      pub peek-node :
          (id n : ℕ) (c : ClusterCache W) → IsLocal c → (peek id c).node ≡ some n → n < z
      unfolding peek
      peek-node id n c v h = elim (Option-cases (find id c.idx)) [
        | inl e ↦ let none_ : none ≡ some n = rw (e, peek) at h in absurd (cc)
        | inr (e, f) ↦
            peek_entry-node c e n (find-AllEntries IsNear id e c.idx v f) (rw (f, peek) at h)
      ]
