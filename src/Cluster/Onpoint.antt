-- ===== src/Cluster/Onpoint.antt =====
-- `onpoint_batches` of puls-engine/core/global_scheduler.cpp. `std::sort` is an insertion sort and
-- `std::lower_bound` counts the elements below the ideal at the front of the sorted lengths.
use puls_rfc.Prelude.{
  ℕ, zero, suc, ◌+◌, Bool, true, false, not, ◌&&◌, Option, none, some, List, [], ◌∷◌, ℤ, pos, ◌-ℤ◌,
  ltb_ℤ, sub_ℕ, ltb, leb, ◌==◌, get_or, set, replicate, if◌then◌else◌,
}
use puls_rfc.Double.{Double}
use puls_rfc.OperatingPoint.{OperatingPoint}
use puls_rfc.Cluster.Defs.{ClusterNode, count}

unfoldable pub insert_asc : ℕ → List ℕ → List ℕ
insert_asc x [] = x ∷ []
insert_asc x (y ∷ ys) = if ltb y x then y ∷ insert_asc x ys else x ∷ y ∷ ys

unfoldable pub sort_asc : List ℕ → List ℕ
unfolding insert_asc
sort_asc [] = []
sort_asc (x ∷ xs) = insert_asc x (sort_asc xs)

unfoldable pub lower_bound : ℤ → List ℕ → ℕ
lower_bound ideal [] = 0
lower_bound ideal (x ∷ xs) =
    let rest = lower_bound ideal xs in if ltb_ℤ (pos x) ideal then suc rest else 0

-- `Lp = pos - 1; while (Lp >= 0 && used[Lp]) --Lp;`
unfoldable pub left_free : List Bool → ℕ → Option ℕ
left_free used zero = none
left_free used (suc p) =
    let lower = left_free used p in if get_or used p false then lower else some p

-- `Rp = pos; while (Rp < m && used[Rp]) ++Rp;`, over the marks from index `i` on.
unfoldable pub right_free : ℕ → ℕ → List Bool → Option ℕ
right_free from i [] = none
right_free from i (u ∷ us) =
    let later = right_free from (suc i) us in if leb from i && not u then some i else later

-- The nearer of the free neighbours, the lower one on a tie.
unfoldable pub nearer : ℤ → List ℕ → Option ℕ → Option ℕ → Option ℕ
nearer ideal a none r = r
nearer ideal a (some l) none = some l
nearer ideal a (some l) (some r) =
    if ltb_ℤ (pos (get_or a r 0) -ℤ ideal) (ideal -ℤ pos (get_or a l 0)) then some r else some l

pub record Composed : Type 0 where
  pub picks : List ℕ
  pub used : List Bool
  pub sum : ℕ
  pub missing : ℕ

module _ {W : Type 0} ⦃d : Double W⦄ (op : OperatingPoint W) where
  unfoldable pub onpoint_ideal : ℕ → ℕ → ℤ
  onpoint_ideal left sum =
      d.llround (d.div (d.of_int (sub_ℕ op.kv_operating_target sum)) (d.of_int (pos left)))

  unfoldable pub onpoint_pick : List ℕ → ℕ → ℕ → List Bool → Option ℕ
  unfolding onpoint_ideal lower_bound left_free right_free nearer
  onpoint_pick a left sum used =
      let ideal = onpoint_ideal left sum in
      let at = lower_bound ideal a in nearer ideal a (left_free used at) (right_free at 0 used)

  -- The loop that composes one batch, with `missing` picks to go.
  unfoldable pub compose : List ℕ → ℕ → ℕ → List Bool → Composed
  unfolding onpoint_pick
  compose a zero sum used = record { picks = []; used = used; sum = sum; missing = 0 }
  compose a (suc left) sum used =
      let stop : Composed = record { picks = []; used = used; sum = sum; missing = suc left } in
      elim (ltb sum op.kv_operating_target) [
        | false ↦ stop
        | true ↦ elim (onpoint_pick a (suc left) sum used) [
          | none ↦ stop
          | some best ↦
              let rest = compose a left (sum + get_or a best 0) (set used best true) in
              record rest { picks = best ∷ rest.picks }
        ]
      ]

  -- `n == decode_count_target` and `|S - target| / target <= idle_band`.
  unfoldable pub is_onpoint : Composed → Bool
  is_onpoint b =
      let target = d.of_int (pos op.kv_operating_target) in
      (b.missing == 0)
      && d.le (d.div (d.fabs (d.sub (d.of_int (pos b.sum)) target)) target) op.idle_band

  -- The batches that hit, `k` to go. After a miss the search ends, and the marks that it would give
  -- back are read no more.
  unfoldable pub onpoint_loop : List ℕ → ℕ → List Bool → ℕ
  unfolding compose is_onpoint
  onpoint_loop a zero used = 0
  onpoint_loop a (suc k) used =
      let b = compose a op.decode_count_target 0 used in
      elim (is_onpoint b) [ true ↦ suc (onpoint_loop a k b.used) | false ↦ 0 ]

  unfoldable pub onpoint_batches : ClusterNode → ℕ → ℕ
  unfolding onpoint_loop sort_asc
  onpoint_batches node k =
      if ltb (count node) op.decode_count_target
      then 0
      else onpoint_loop (sort_asc node.lengths) k (replicate (count node) false)
