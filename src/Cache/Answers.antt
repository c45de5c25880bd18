-- ===== src/Cache/Answers.antt =====
-- What `peek` and `lookup` answer, also after `on_complete` (puls-engine/scheduler/cache.cpp).
use puls_rfc.Prelude.{
  ℕ, ◌+◌, ◌*◌, ◌≤◌, ◌<◌, ◌⊎◌, ◌≡◌, ◌≢◌, refl, ◌&&◌, some, [], ◌∷◌, ltb, leb, ◌==◌, if◌then◌else◌,
  arith, Bool-cases, Option-cases, inl, inr, ◌∙◌, sym, subst,
}
use puls_rfc.Double.{Double}
use puls_rfc.Cache.Defs.{
  CacheResult, Tier, hbm, ssd, gone, hit, miss_reload, Entry, Index, ClusterCache, find, put,
  reclaimed, on_complete, peek, lookup_entry, lookup, Lookup,
}
use puls_rfc.Cache.Bytes.{entry_bytes, hbm_bytes, found_bytes, hbm_bytes-put}
use puls_rfc.Cache.Accounting.{IsValid, reclaimed_lem}

pub find-put :
    (id k : ℕ) (e : Entry) (es : Index)
    → find k (put id e es) ≡ (if id == k then some e else find k es)
unfolding find put
find-put id k e [] = refl
find-put id k e ((j, f) ∷ es) = ground (arith, find-put id k e es)

-- The index without the entry of `id`.
unfoldable pub erase : ℕ → Index → Index
erase id [] = []
erase id ((k, e) ∷ es) = if k == id then es else (k, e) ∷ erase id es

pub hbm_bytes-erase :
    (bpt n id : ℕ) (es : Index)
    → hbm_bytes bpt n (erase id es) + found_bytes bpt n (find id es) ≡ hbm_bytes bpt n es
unfolding erase find hbm_bytes found_bytes
hbm_bytes-erase bpt n id [] = refl
hbm_bytes-erase bpt n id ((k, e) ∷ es) = elim (Bool-cases (k == id)) [
  | inl here ↦ rw here (omega arith)
  | inr later ↦ rw later (omega (arith, hbm_bytes-erase bpt n id es))
]

-- An entry that keeps its node, length and tier keeps the bytes.
pub hbm_bytes-put_same :
    (bpt n id last : ℕ) (e : Entry) (es : Index)
    → find id es ≡ some e
    → hbm_bytes bpt n (put id (record e { last = last }) es) ≡ hbm_bytes bpt n es
unfolding entry_bytes found_bytes
hbm_bytes-put_same bpt n id last e es found =
    let p = hbm_bytes-put bpt n id (record e { last = last }) es in
    let q : found_bytes bpt n (find id es) ≡ entry_bytes bpt n (record e { last = last }) =
      rw found in
    omega (arith, p, q)

module _ {W : Type 0} ⦃d : Double W⦄ where
  -- What the caller of `lookup` relies on: the answer of `peek`, one counter moved by one, and
  -- accounts that stay valid.
  pub record IsLookup (id : ℕ) (c : ClusterCache W) (r : Lookup W × ClusterCache W) : Type 0 where
    pub answer : r.0 ≡ peek id c
    pub counted : r.1.hits + r.1.reloads + r.1.recomputes ≡ c.hits + c.reloads + c.recomputes + 1
    pub same_used : (n : ℕ) → r.1.node_used n ≡ c.node_used n
    pub valid : IsValid r.1

  lookup_entry-IsLookup :
      (id now : ℕ) (c : ClusterCache W) (t : Tier) (e : Entry)
      → e.tier ≡ t
      → find id c.idx ≡ some e
      → IsValid c
      → IsLookup id c (lookup_entry id now c e)
  unfolding lookup_entry peek
  lookup_entry-IsLookup id now c hbm e is found v =
      rw (is, lookup_entry)
        (record {
          answer = rw (found, peek, is);
          counted = omega arith;
          same_used = λ n. refl;
          valid = record {
            accounted =
                λ n. v.accounted n ∙ sym (hbm_bytes-put_same c.kv_bpt n id now e c.idx found);
            within = v.within;
          };
        })
  lookup_entry-IsLookup id now c ssd e is found v =
      rw (is, lookup_entry)
        (record {
          answer = rw (found, peek, is);
          counted = omega arith;
          same_used = λ n. refl;
          valid = record {
            accounted =
                λ n. v.accounted n ∙ sym (hbm_bytes-put_same c.kv_bpt n id now e c.idx found);
            within = v.within;
          };
        })
  lookup_entry-IsLookup id now c gone e is found v =
      rw (is, lookup_entry)
        (record {
          answer = rw (found, peek, is);
          counted = omega arith;
          same_used = λ n. refl;
          valid = record { accounted = v.accounted; within = v.within };
        })

  -- From valid accounts, `lookup` answers as `peek` does, moves the three counters by one in sum, and
  -- leaves the bytes in use as they are and the accounts valid.
  pub lookup-IsLookup :
      (id now : ℕ) (c : ClusterCache W) → IsValid c → IsLookup id c (lookup id now c)
  unfolding lookup peek
  lookup-IsLookup id now c v = elim (Option-cases (find id c.idx)) [
    | inl e ↦
        rw (e, lookup)
          (record {
            answer = rw (e, peek);
            counted = omega arith;
            same_used = λ n. refl;
            valid = record { accounted = v.accounted; within = v.within };
          })
    | inr (f, e) ↦ rw (e, lookup) (lookup_entry-IsLookup id now c f.tier f refl e v)
  ]

  peek-on_complete_test :
      (node id total_len now : ℕ) (c : ClusterCache W) (k : ℕ)
      → k ≢ id
      → let c' = on_complete node id total_len now c in
        let eligible = ltb c.cfg.eligibility_threshold total_len in
        let room = leb (reclaimed id c node + total_len * c.kv_bpt) (c.node_budget node) in
        ((peek id c').node ≡ some node)
        × ((peek id c').result ≡ (if eligible && room then hit else miss_reload))
        × (peek k c' ≡ peek k c)
  unfolding on_complete peek
  peek-on_complete_test node id total_len now c k other =
      let t =
        ltb c.cfg.eligibility_threshold total_len
        && leb (reclaimed id c node + total_len * c.kv_bpt) (c.node_budget node) in
      elim (Bool-cases t) [
        | inl cached ↦
            let e : Entry = record { node = node; len = total_len; last = now; tier = hbm } in
            ground (arith, find-put id id e c.idx, find-put id k e c.idx)
        | inr not_cached ↦
            let e : Entry = record { node = node; len = total_len; last = now; tier = ssd } in
            ground (arith, find-put id id e c.idx, find-put id k e c.idx)
      ]

  -- The answer to `id` once a turn of `total_len` tokens is complete on `node`: the turn is cached
  -- where it is longer than the threshold and has room beside the other entries in HBM there, and can
  -- be reloaded where it is not longer or has no room.
  abbrev pub IsAnswer : ℕ → ℕ → ℕ → ClusterCache W → CacheResult → Type 0
  IsAnswer node id total_len c result =
      let others = hbm_bytes c.kv_bpt node (erase id c.idx) in
      let bytes = total_len * c.kv_bpt in
      (result ≡ hit)
        × (c.cfg.eligibility_threshold < total_len)
        × (others + bytes ≤ c.node_budget node)
      ⊎ (result ≡ miss_reload)
        × ((total_len ≤ c.cfg.eligibility_threshold) ⊎ (c.node_budget node < others + bytes))

  test-IsAnswer :
      (node id total_len : ℕ) (c : ClusterCache W)
      → IsValid c
      → let eligible = ltb c.cfg.eligibility_threshold total_len in
        let room = leb (reclaimed id c node + total_len * c.kv_bpt) (c.node_budget node) in
        IsAnswer node id total_len c (if eligible && room then hit else miss_reload)
  test-IsAnswer node id total_len c v =
      let others : reclaimed id c node ≡ hbm_bytes c.kv_bpt node (erase id c.idx) = omega (
        arith,
        reclaimed_lem id c node,
        v.accounted node,
        hbm_bytes-erase c.kv_bpt node id c.idx,
      ) in
      let bytes = total_len * c.kv_bpt in
      elim (Bool-cases (ltb c.cfg.eligibility_threshold total_len)) [
        | inr small ↦ rw small (inr (refl, inl (ground arith)))
        | inl eligible ↦
            elim (Bool-cases (leb (reclaimed id c node + bytes) (c.node_budget node))) [
              | inl room ↦ rw (eligible, room) (inl (refl, ground arith, ground (arith, others)))
              | inr crowded ↦ rw (eligible, crowded) (inr (refl, inr (ground (arith, others))))
            ]
      ]

  -- From valid accounts, after `on_complete` on `node`, `id` is found there: cached where it is longer
  -- than the threshold and the other entries in HBM on `node` leave room for it, and reloadable
  -- elsewhere. Any other id `k` answers as before.
  pub peek-on_complete :
      (node id total_len now : ℕ) (c : ClusterCache W) (k : ℕ)
      → IsValid c
      → k ≢ id
      → let c' = on_complete node id total_len now c in
        ((peek id c').node ≡ some node)
        × IsAnswer node id total_len c (peek id c').result
        × (peek k c' ≡ peek k c)
  peek-on_complete node id total_len now c k v other =
      let (at, result, same) = peek-on_complete_test node id total_len now c k other in
      let answer = test-IsAnswer node id total_len c v in
      (at, subst (IsAnswer node id total_len c) (sym result) answer, same)
