-- ===== src/Cache/Accounting.antt =====
-- The byte accounts of the cache (puls-engine/scheduler/cache.cpp): every operation keeps them
-- exact and within the budgets.
use puls_rfc.Prelude.{
  ℕ, zero, suc, ◌+◌, ◌-◌, ◌*◌, ◌≤◌, ◌≡◌, ◌≢◌, refl, true, ◌&&◌, none, some, ltb, leb, ◌==◌, length,
  get_elem?, arith, Bool-cases, Option-cases, inl, inr, ◌∙◌, ℤ, pos_part, ltb→lt, ltb→le,
}
use puls_rfc.Scan.{scan, IsSelection, scan-some, scan-none}
use puls_rfc.Cache.Defs.{
  hbm, ssd, Entry, Index, ClusterCache, CacheConfig, is_hbm, update, find, set_tier, victim_test,
  last_mark, shrink, reclaimed, on_complete, evict_tick, enforce_budget, new_cache,
}
use puls_rfc.Cache.Bytes.{
  entry_bytes-not_hbm, entry_bytes-hbm, entry_bytes-on, hbm_bytes, hbm_count, found_bytes,
  hbm_bytes-put, found_bytes-le, give_back-lem, hbm_bytes-set_tier, hbm_count-set_tier,
  hbm_count-le, hbm_bytes-none, hbm_bytes_of_count, tick_all-bytes, tick_all-le,
}

-- A node's used bytes are those of its entries in HBM, and lie within its budget.
pub record IsValid {W : Type 0} (c : ClusterCache W) : Type 0 where
  pub accounted : (n : ℕ) → c.node_used n ≡ hbm_bytes c.kv_bpt n c.idx
  pub within : (n : ℕ) → c.node_used n ≤ c.node_budget n

pub victim-IsSelection : (node : ℕ) → IsSelection (victim_test node) last_mark
victim-IsSelection node = record { irrefl = λ x. ground arith; trans = λ s x y h k. ground arith }

module _ {W : Type 0} where
  pub new_cache-IsValid : (cap bpt : ℕ) (cfg : CacheConfig W) → IsValid (new_cache cap bpt cfg)
  unfolding new_cache hbm_bytes
  new_cache-IsValid cap bpt cfg = record { accounted = λ n. refl; within = λ n. omega arith }

  pub reclaimed_lem :
      (id : ℕ) (c : ClusterCache W) (n : ℕ)
      → reclaimed id c n ≡ c.node_used n - found_bytes c.kv_bpt n (find id c.idx)
  unfolding reclaimed found_bytes
  reclaimed_lem id c n = elim (Option-cases (find id c.idx)) [
    | inl e ↦ rw (e, reclaimed) (omega arith)
    | inr (f, e) ↦ rw (e, reclaimed) (give_back-lem c.kv_bpt n f c.node_used)
  ]

  -- `on_complete` keeps valid accounts valid: exact, and every node within its budget.
  pub on_complete-IsValid :
      (node id total_len now : ℕ) (c : ClusterCache W)
      → IsValid c
      → IsValid (on_complete node id total_len now c)
  unfolding on_complete
  on_complete-IsValid node id total_len now c v =
      elim (Bool-cases (
        ltb c.cfg.eligibility_threshold total_len
        && leb (reclaimed id c node + total_len * c.kv_bpt) (c.node_budget node))) [
          | inl cached ↦
              let e : Entry = record { node = node; len = total_len; last = now; tier = hbm } in
              rw (cached, on_complete)
                (record {
                  accounted = λ n. ground (
                    arith,
                    reclaimed_lem id c n,
                    v.accounted n,
                    hbm_bytes-put c.kv_bpt n id e c.idx,
                    found_bytes-le c.kv_bpt n id c.idx,
                    entry_bytes-hbm c.kv_bpt n e refl,
                  );
                  within = λ n. ground (arith, reclaimed_lem id c n, v.within n);
                })
          | inr offloaded ↦
              let e : Entry = record { node = node; len = total_len; last = now; tier = ssd } in
              rw (offloaded, on_complete)
                (record {
                  accounted = λ n. omega (
                    arith,
                    reclaimed_lem id c n,
                    v.accounted n,
                    hbm_bytes-put c.kv_bpt n id e c.idx,
                    found_bytes-le c.kv_bpt n id c.idx,
                    entry_bytes-not_hbm c.kv_bpt n e refl,
                  );
                  within = λ n. omega (arith, reclaimed_lem id c n, v.within n);
                })
        ]

  -- `evict_tick` keeps valid accounts valid: exact, and every node within its budget.
  pub evict_tick-IsValid : (now : ℕ) (c : ClusterCache W) → IsValid c → IsValid (evict_tick now c)
  unfolding evict_tick
  evict_tick-IsValid now c v = record {
    accounted = λ n. omega (
      arith,
      v.accounted n,
      tick_all-bytes c.kv_bpt c.cfg.evict_age c.cfg.gone_age now n c.idx c.node_used
          (omega (arith, v.accounted n)),
    );
    within = λ n. omega (
      arith,
      v.within n,
      tick_all-le c.kv_bpt c.cfg.evict_age c.cfg.gone_age now n c.idx c.node_used,
    );
  }

-- What `shrink` does to the entries and the bytes.
pub record IsShrunk (bpt node budget : ℕ) (used : ℕ → ℕ) (r : Index × (ℕ → ℕ)) : Type 0 where
  pub accounted : (n : ℕ) → r.1 n ≡ hbm_bytes bpt n r.0
  pub fits : r.1 node ≤ budget
  pub shrinks : (n : ℕ) → r.1 n ≤ used n
  pub others : (n : ℕ) → n ≢ node → r.1 n ≡ used n

pub shrink-IsShrunk :
    (bpt node budget fuel : ℕ) (es : Index) (used : ℕ → ℕ)
    → hbm_count node es ≤ fuel
    → ((n : ℕ) → used n ≡ hbm_bytes bpt n es)
    → IsShrunk bpt node budget used (shrink bpt node budget fuel es used)
unfolding shrink
shrink-IsShrunk bpt node budget zero es used enough exact = record {
  accounted = exact;
  fits = omega (arith, exact node, hbm_bytes_of_count bpt node es (omega arith));
  shrinks = λ n. omega arith;
  others = λ n other. refl;
}
shrink-IsShrunk bpt node budget (suc fuel) es used enough exact =
    elim (Bool-cases (ltb budget (used node))) [
      | inr within ↦
          rw (within, shrink)
            (record {
              accounted = exact;
              fits = ltb→le _ _ within;
              shrinks = λ n. omega arith;
              others = λ n other. refl;
            })
      | inl above ↦ elim (Option-cases (scan (victim_test node) last_mark 0 none none es)) [
        | inl e ↦
            let absent =
              hbm_bytes-none bpt node es (scan-none _ _ (victim-IsSelection node) none es e) in
            absurd (omega (arith, ltb→lt _ _ above, exact node, absent))
        | inr (p, e) ↦
            let (at, t, best) = scan-some _ _ (victim-IsSelection node) none es p e in
            let here : (is_hbm p.1.1.tier && p.1.1.node == node) ≡ true = ground arith in
            let used' = update used node (used node - p.1.1.len * bpt) in
            let es' = set_tier es p.0 ssd in
            let rest =
              shrink-IsShrunk bpt node budget fuel es' used'
                (omega (arith, hbm_count-set_tier node es p.0 p.1.0 p.1.1 at here))
                (λ n. demoted-exact n p at here) in
            rw (above, e, shrink)
              (record {
                accounted = rest.accounted;
                fits = rest.fits;
                shrinks = λ n. ground (arith, rest.shrinks n);
                others = λ n other. rest.others n other ∙ ground arith;
              })
      ]
    ]
  where
    demoted-exact :
        (n : ℕ) (p : ℕ × (ℕ × Entry))
        → get_elem? es p.0 ≡ some p.1
        → (is_hbm p.1.1.tier && p.1.1.node == node) ≡ true
        → update used node (used node - p.1.1.len * bpt) n ≡ hbm_bytes bpt n (set_tier es p.0 ssd)
    demoted-exact n p at here = ground (
      arith,
      exact n,
      hbm_bytes-set_tier bpt n es p.0 p.1.0 p.1.1 at,
      entry_bytes-on bpt n node p.1.1 here,
    )

module _ {W : Type 0} where
  -- From valid accounts, `enforce_budget` leaves the node within its new budget (a negative one
  -- counts as 0), keeps the accounts exact and every node within its budget, and takes nothing from
  -- another node `n`.
  pub enforce_budget-IsValid :
      (node : ℕ) (budget : ℤ) (c : ClusterCache W) (n : ℕ)
      → IsValid c
      → n ≢ node
      → let c' = enforce_budget node budget c in
        IsValid c' × (c'.node_used node ≤ pos_part budget) × (c'.node_used n ≡ c.node_used n)
  unfolding enforce_budget
  enforce_budget-IsValid node budget c n v other =
      let r =
        shrink-IsShrunk c.kv_bpt node (pos_part budget) (length c.idx) c.idx c.node_used
          (hbm_count-le node c.idx) v.accounted in
      (
        record {
          accounted = r.accounted;
          within = λ n. ground (arith, r.fits, r.shrinks n, v.within n);
        },
        r.fits,
        r.others n other,
      )
