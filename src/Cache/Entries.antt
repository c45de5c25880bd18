-- ===== src/Cache/Entries.antt =====
-- A predicate of all the entries of the cache (puls-engine/scheduler/cache.cpp) through its index.
use puls_rfc.Prelude.{ℕ, ◌≡◌, inl, inr, some, [], ◌∷◌, ◌==◌, All, Bool-cases, subst, some-injective}
use puls_rfc.Cache.Defs.{Entry, Index, find, put}

module _ (P : Entry → Type 0) where
  abbrev pub AllEntries : Index → Type 0
  AllEntries es = All (λ p. P p.1) es

  pub put-AllEntries :
      (id : ℕ) (e : Entry) (es : Index) → P e → AllEntries es → AllEntries (put id e es)
  unfolding put
  put-AllEntries id e [] h all = (h, tt)
  put-AllEntries id e ((k, f) ∷ es) h all = elim (Bool-cases (k == id)) [
    | inl same ↦ rw (same, put) (h, all.1)
    | inr other ↦ rw (other, put) (all.0, put-AllEntries id e es h all.1)
  ]

  pub find-AllEntries :
      (id : ℕ) (e : Entry) (es : Index) → AllEntries es → find id es ≡ some e → P e
  unfolding find
  find-AllEntries id e [] all h = absurd (cc)
  find-AllEntries id e ((k, f) ∷ es) all h = elim (Bool-cases (k == id)) [
    | inl same ↦
        let found : some f ≡ some e = rw (same, find) at h in
        subst P (some-injective f e found) all.0
    | inr other ↦ find-AllEntries id e es all.1 (rw (other, find) at h)
  ]
