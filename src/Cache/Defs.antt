-- ===== src/Cache/Defs.antt =====
-- `ClusterCache` of puls-engine/scheduler/cache.cpp. `idx_` is an association list, in an order
-- that no operation fixes; the vectors over the nodes are functions, used at the nodes that exist.
-- `now - last > age` is written `last + age < now`.
use puls_rfc.Prelude.{
  ℕ, zero, suc, ◌+◌, ◌-◌, ◌*◌, Bool, true, false, ◌&&◌, Option, none, some, List, [], ◌∷◌, ℤ, pos,
  pos_part, ltb, leb, ◌==◌, length, if◌then◌else◌,
}
use puls_rfc.Double.{Double}
use puls_rfc.Scan.{scan}

pub data Tier : Type 0 where
  hbm ssd gone : Tier

pub data CacheResult : Type 0 where
  hit miss_reload miss_recompute : CacheResult

pub record CacheConfig (W : Type 0) : Type 0 where
  pub eligibility_threshold : ℕ
  pub evict_age : ℕ
  pub gone_age : ℕ
  pub offload_bw_bytes_per_round : W

pub record Entry : Type 0 where
  pub node : ℕ
  pub len : ℕ
  pub last : ℕ
  pub tier : Tier

abbrev pub Index : Type 0
Index = List (ℕ × Entry)

pub record ClusterCache (W : Type 0) : Type 0 where
  pub idx : Index
  pub node_used : ℕ → ℕ
  pub node_budget : ℕ → ℕ
  pub node_cap : ℕ
  pub kv_bpt : ℕ
  pub cfg : CacheConfig W
  pub hits : ℕ
  pub reloads : ℕ
  pub recomputes : ℕ

-- `node = -1` is `none`.
pub record Lookup (W : Type 0) : Type 0 where
  pub result : CacheResult
  pub node : Option ℕ
  pub reload_cost : W

abbrev pub is_hbm : Tier → Bool
is_hbm hbm = true
is_hbm ssd = false
is_hbm gone = false

abbrev pub update : (ℕ → ℕ) → ℕ → ℕ → ℕ → ℕ
update f n v m = if m == n then v else f m

unfoldable pub find : ℕ → Index → Option Entry
find id [] = none
find id ((k, e) ∷ es) = if k == id then some e else find id es

-- `idx_[id] = e`
unfoldable pub put : ℕ → Entry → Index → Index
put id e [] = (id, e) ∷ []
put id e ((k, f) ∷ es) = if k == id then (id, e) ∷ es else (k, f) ∷ put id e es

-- Gives an entry's HBM bytes back to its node.
unfoldable pub give_back : ℕ → Entry → (ℕ → ℕ) → ℕ → ℕ
give_back bpt e used =
    if is_hbm e.tier then update used e.node (used e.node - e.len * bpt) else used

-- The mark is `victim->last`, `none` for the null pointer.
abbrev pub victim_test : ℕ → Option ℕ → ℕ × Entry → Bool
victim_test node oldest (k, e) =
    (is_hbm e.tier && e.node == node) && elim oldest [ none ↦ true | some l ↦ ltb e.last l ]

abbrev pub last_mark : ℕ × Entry → Option ℕ
last_mark p = some p.1.last

-- One entry of `evict_tick`: its new tier, and the bytes in use.
unfoldable pub tick : ℕ → ℕ → ℕ → ℕ → Entry → (ℕ → ℕ) → Entry × (ℕ → ℕ)
unfolding give_back
tick bpt evict_age gone_age now e used =
    if is_hbm e.tier && ltb (e.last + evict_age) now
    then (record e { tier = ssd }, give_back bpt e used)
    else elim e.tier [
      | ssd ↦ (if ltb (e.last + gone_age) now then record e { tier = gone } else e, used)
      | hbm ↦ (e, used)
      | gone ↦ (e, used)
    ]

unfoldable pub tick_all : ℕ → ℕ → ℕ → ℕ → Index → (ℕ → ℕ) → Index × (ℕ → ℕ)
unfolding tick
tick_all bpt evict_age gone_age now [] used = ([], used)
tick_all bpt evict_age gone_age now ((k, e) ∷ es) used =
    let (e', used') = tick bpt evict_age gone_age now e used in
    let (es', used'') = tick_all bpt evict_age gone_age now es used' in ((k, e') ∷ es', used'')

abbrev pub set_tier : Index → ℕ → Tier → Index
set_tier [] i t = []
set_tier ((k, e) ∷ es) zero t = (k, record e { tier = t }) ∷ es
set_tier ((k, e) ∷ es) (suc i) t = (k, e) ∷ set_tier es i t

-- `while (node_used_[node] > budget)`, with fuel: each pass takes an entry out of HBM.
unfoldable pub shrink : ℕ → ℕ → ℕ → ℕ → Index → (ℕ → ℕ) → Index × (ℕ → ℕ)
unfolding scan give_back
shrink bpt node budget zero es used = (es, used)
shrink bpt node budget (suc fuel) es used = elim (ltb budget (used node)) [
  | false ↦ (es, used)
  | true ↦ elim (scan (victim_test node) last_mark 0 none none es) [
    | none ↦ (es, used)
    | some (i, (k, e)) ↦
        shrink bpt node budget fuel (set_tier es i ssd) (update used node (used node - e.len * bpt))
  ]
]

module _ {W : Type 0} where
  unfoldable pub new_cache : ℕ → ℕ → CacheConfig W → ClusterCache W
  new_cache node_capacity_bytes kv_bytes_per_token cfg = record {
    idx = [];
    node_used = λ n. 0;
    node_budget = λ n. node_capacity_bytes;
    node_cap = node_capacity_bytes;
    kv_bpt = kv_bytes_per_token;
    cfg = cfg;
    hits = 0;
    reloads = 0;
    recomputes = 0;
  }

  -- The bytes in use once an entry that `id` already has in HBM is given back.
  unfoldable pub reclaimed : ℕ → ClusterCache W → ℕ → ℕ
  unfolding find give_back
  reclaimed id c = elim (find id c.idx) [
    | none ↦ c.node_used
    | some e ↦ give_back c.kv_bpt e c.node_used
  ]

  unfoldable pub on_complete : ℕ → ℕ → ℕ → ℕ → ClusterCache W → ClusterCache W
  unfolding reclaimed put
  on_complete node id total_len now c =
      let bytes = total_len * c.kv_bpt in
      let used = reclaimed id c in
      if ltb c.cfg.eligibility_threshold total_len && leb (used node + bytes) (c.node_budget node)
      then record c {
        idx = put id (record { node = node; len = total_len; last = now; tier = hbm }) c.idx;
        node_used = update used node (used node + bytes);
      }
      else record c {
        idx = put id (record { node = node; len = total_len; last = now; tier = ssd }) c.idx;
        node_used = used;
      }

  unfoldable pub evict_tick : ℕ → ClusterCache W → ClusterCache W
  unfolding tick_all
  evict_tick now c =
      let (idx', used') = tick_all c.kv_bpt c.cfg.evict_age c.cfg.gone_age now c.idx c.node_used in
      record c { idx = idx'; node_used = used' }

  -- A negative budget counts as 0.
  unfoldable pub enforce_budget : ℕ → ℤ → ClusterCache W → ClusterCache W
  unfolding shrink
  enforce_budget node budget c =
      let limit = pos_part budget in
      let (idx', used') = shrink c.kv_bpt node limit (length c.idx) c.idx c.node_used in
      record c { idx = idx'; node_used = used'; node_budget = update c.node_budget node limit }

module _ {W : Type 0} ⦃d : Double W⦄ where
  -- `(double)len * kv_bpt_ / offload_bw_bytes_per_round`
  unfoldable pub reload_cost : ClusterCache W → Entry → W
  reload_cost c e =
      d.div (d.mul (d.of_int (pos e.len)) (d.of_int (pos c.kv_bpt)))
        c.cfg.offload_bw_bytes_per_round

  abbrev pub recompute : Lookup W
  recompute = record { result = miss_recompute; node = none; reload_cost = d.of_int (pos 0) }

  unfoldable pub peek_entry : ClusterCache W → Entry → Lookup W
  unfolding reload_cost
  peek_entry c e = elim e.tier [
    | hbm ↦ record { result = hit; node = some e.node; reload_cost = d.of_int (pos 0) }
    | ssd ↦ record { result = miss_reload; node = some e.node; reload_cost = reload_cost c e }
    | gone ↦ recompute
  ]

  unfoldable pub peek : ℕ → ClusterCache W → Lookup W
  unfolding find peek_entry
  peek id c = elim (find id c.idx) [ none ↦ recompute | some e ↦ peek_entry c e ]

  -- The switch of `lookup`: the answer, the counters, and the reset of `last`.
  unfoldable pub lookup_entry : ℕ → ℕ → ClusterCache W → Entry → Lookup W × ClusterCache W
  unfolding reload_cost put
  lookup_entry id now c e = elim e.tier [
    | hbm ↦ (
      record { result = hit; node = some e.node; reload_cost = d.of_int (pos 0) },
      record c { hits = c.hits + 1; idx = put id (record e { last = now }) c.idx },
    )
    | ssd ↦ (
      record { result = miss_reload; node = some e.node; reload_cost = reload_cost c e },
      record c { reloads = c.reloads + 1; idx = put id (record e { last = now }) c.idx },
    )
    | gone ↦ (recompute, record c { recomputes = c.recomputes + 1 })
  ]

  unfoldable pub lookup : ℕ → ℕ → ClusterCache W → Lookup W × ClusterCache W
  unfolding find lookup_entry
  lookup id now c = elim (find id c.idx) [
    | none ↦ (recompute, record c { recomputes = c.recomputes + 1 })
    | some e ↦ lookup_entry id now c e
  ]
