-- ===== src/Cluster/Placement.antt =====
-- The bounds that `cold_start` and `heal_node` keep on every node
-- (puls-engine/core/global_scheduler.cpp).

use puls_rfc.Prelude.{
  ℕ, zero, suc, ◌+◌, ◌-◌, ◌≤◌, ◌≡◌, true, false, some, List, [], ◌∷◌, arith, leb, length,
  length-append, sum_by, sum_by-append, set, get_elem?, All, All-get, Bool-cases, Option-cases, inl,
  inr, pos, refl, length-set, ◌∙◌,
}
use puls_rfc.Double.{Double, IsOrdered}
use puls_rfc.OperatingPoint.{OperatingPoint}
use puls_rfc.RequestSource.{RequestSource, Fits}
use puls_rfc.Scan.{IsSelection, scan-some}
use puls_rfc.Steering.{far}
use puls_rfc.Cluster.Defs.{
  ClusterNode, count, admit, sum, can_fit, deviation, place_test, find_node, place_all, cold_start,
  heal_node,
}

-- A node's running total is the sum of its lengths.
abbrev pub IsSummed : ClusterNode → Type 0
IsSummed nd = nd.total ≡ sum nd.lengths

pub admit-IsSummed : (len : ℕ) (nd : ClusterNode) → IsSummed nd → IsSummed (admit len nd)
unfolding admit
admit-IsSummed len nd h = omega (arith, sum_by-append (λ x. x) nd.lengths (len ∷ []))

count-admit : (len : ℕ) (nd : ClusterNode) → count (admit len nd) ≡ count nd + 1
unfolding admit
count-admit len nd = omega (arith, length-append nd.lengths (len ∷ []))

admit-le :
    {cap : ℕ} (len : ℕ) (nd : ClusterNode)
    → len ≤ cap - nd.total
    → nd.total ≤ cap
    → (admit len nd).total ≤ cap
unfolding admit
admit-le len nd h k = omega arith

All-set :
    (P : ClusterNode → Type 0) (xs : List ClusterNode) (i : ℕ) (x : ClusterNode)
    → All P xs
    → P x
    → All P (set xs i x)
All-set P [] i x h p = tt
All-set P (y ∷ ys) zero x h p = (p, h.1)
All-set P (y ∷ ys) (suc i) x h p = (h.0, All-set P ys i x h.1 p)

-- The requests that the nodes hold.
abbrev pub population : List ClusterNode → ℕ
population = sum_by count

population-set :
    (xs : List ClusterNode) (i len : ℕ) (x : ClusterNode)
    → get_elem? xs i ≡ some x
    → population (set xs i (admit len x)) ≡ population xs + 1
unfolding admit
population-set [] i len x h = absurd (cc)
population-set (y ∷ ys) zero len x h = ground (arith, length-append x.lengths (len ∷ []))
population-set (y ∷ ys) (suc i) len x h = omega (arith, population-set ys i len x h)

module _ {W : Type 0} ⦃d : Double W⦄ (op : OperatingPoint W) where
  -- The node is summed, within the footprint cap and within `node_max`.
  pub record IsWithin (nd : ClusterNode) : Type 0 where
    pub summed : IsSummed nd
    pub footprint : nd.total ≤ op.node_footprint_cap
    pub counted : count nd ≤ op.node_max

  place-IsSelection : IsOrdered W → (len : ℕ) → IsSelection (place_test op len) (deviation op len)
  place-IsSelection laws len = record {
    irrefl = λ x. ground (arith, laws.lt_irrefl (deviation op len x));
    trans = λ s x y h k. ground (arith, laws.lt_trans (deviation op len y) (deviation op len x) s);
  }

  admit-IsWithin :
      (len : ℕ) (nd : ClusterNode)
      → IsWithin nd
      → can_fit op len nd ≡ true
      → IsWithin (admit len nd)
  unfolding admit
  admit-IsWithin len nd w fits = record {
    summed = omega (arith, w.summed, sum_by-append (λ x. x) nd.lengths (len ∷ []));
    footprint = ground arith;
    counted = ground (arith, length-append nd.lengths (len ∷ []));
  }

  -- A request goes to the node that can take it at the least deviation from `ctx_balance`.
  pub find_node-some :
      IsOrdered W
      → (len : ℕ) (nodes : List ClusterNode) (p : ℕ × ClusterNode) → find_node op len nodes ≡ some p
      → (get_elem? nodes p.0 ≡ some p.1)
        × (can_fit op len p.1 ≡ true)
        × ((j : ℕ) (y : ClusterNode)
            → get_elem? nodes j ≡ some y
            → can_fit op len y ≡ true
            → d.lt (deviation op len y) (deviation op len p.1) ≡ false)
  unfolding find_node
  find_node-some laws len nodes p e =
      let (at, t, best) = scan-some _ _ (place-IsSelection laws len) far nodes p e in
      (
        at,
        ground arith,
        λ j y here fits. ground (
          arith,
          All-get (λ z. place_test op len (deviation op len p.1) z ≡ false) nodes j y best here,
        ),
      )

  length-place_all :
      (kept : List ℕ) (nodes : List ClusterNode) (leftover : ℕ)
      → length (place_all op kept nodes leftover).0 ≡ length nodes
  unfolding place_all
  length-place_all [] nodes leftover = refl
  length-place_all (len ∷ kept) nodes leftover = elim (Option-cases (find_node op len nodes)) [
    | inl e ↦ rw (e, place_all) (length-place_all kept nodes (leftover + 1))
    | inr (p, e) ↦
        let nodes' = set nodes p.0 (admit len p.1) in
        rw (e, place_all)
          (length-place_all kept nodes' leftover ∙ length-set nodes p.0 (admit len p.1))
  ]

  pub length-cold_start :
      (shuffle : List ℕ → List ℕ) (kept : List ℕ) (nodes : List ClusterNode)
      → length (cold_start op shuffle kept nodes).0 ≡ length nodes
  unfolding cold_start
  length-cold_start shuffle kept nodes = length-place_all (shuffle kept) nodes 0

  place_all_lem :
      IsOrdered W
      → (kept : List ℕ) (nodes : List ClusterNode) (leftover : ℕ) → All IsWithin nodes
      → let (nodes', leftover') = place_all op kept nodes leftover in
        All IsWithin nodes'
        × (population nodes' + leftover' ≡ population nodes + leftover + length kept)
  unfolding place_all
  place_all_lem laws [] nodes leftover w = (w, omega arith)
  place_all_lem laws (len ∷ kept) nodes leftover w = elim (Option-cases (find_node op len nodes)) [
    | inl e ↦
        let (within, counted) = place_all_lem laws kept nodes (leftover + 1) w in
        rw (e, place_all) (within, omega arith)
    | inr (p, e) ↦
        let (at, fits, best) = find_node-some laws len nodes p e in
        let nodes' = set nodes p.0 (admit len p.1) in
        let (within, counted) = place_all_lem laws kept nodes' leftover (
          All-set IsWithin nodes p.0 (admit len p.1) w
            (admit-IsWithin len p.1 (All-get IsWithin nodes p.0 p.1 w at) fits)) in
        rw (e, place_all) (within, omega (arith, counted, population-set nodes p.0 len p.1 at))
  ]

  -- Whatever the shuffle's order, every node stays within the footprint cap and `node_max`, with a
  -- total that is the sum of its lengths, and every kept request is placed or counted as left over.
  pub cold_start_lem :
      IsOrdered W
      → (shuffle : List ℕ → List ℕ) (kept : List ℕ) (nodes : List ClusterNode)
      → length (shuffle kept) ≡ length kept
      → All IsWithin nodes
      → let (nodes', leftover) = cold_start op shuffle kept nodes in
        All IsWithin nodes' × (population nodes' + leftover ≡ population nodes + length kept)
  unfolding cold_start
  cold_start_lem laws shuffle kept nodes same w =
      let (within, counted) = place_all_lem laws (shuffle kept) nodes 0 w in (within, omega arith)

  module _ {S : Type 0} (src : RequestSource W S) where
    -- Healing keeps a node's total exact and within the footprint cap, pulls at most one request for
    -- each departed one, and the pulls are what the node grows by.
    pub heal_node_lem :
        (departed : List ℕ) (nd : ClusterNode) (s : S)
        → Fits src
        → IsSummed nd
        → nd.total ≤ op.node_footprint_cap
        → let (nd', pulls, s') = heal_node op src departed nd s in
          IsSummed nd'
          × (nd'.total ≤ op.node_footprint_cap)
          × (count nd' ≡ count nd + pulls)
          × (pulls ≤ length departed)
    unfolding heal_node
    heal_node_lem [] nd s fits summed cap = (summed, cap, omega arith, omega arith)
    heal_node_lem (hole ∷ departed) nd s fits summed cap =
        elim (Bool-cases (leb op.node_footprint_cap nd.total)) [
          | inl full ↦ rw (full, heal_node) (summed, cap, omega arith, omega arith)
          | inr roomy ↦
              elim (Option-cases
                (src.pull_near (d.of_int (pos hole)) (pos (op.node_footprint_cap - nd.total))
                  s).0) [
                    | inl e ↦ rw (roomy, e, heal_node) (summed, cap, omega arith, omega arith)
                    | inr (req, e) ↦
                        let room =
                          fits (d.of_int (pos hole)) (pos (op.node_footprint_cap - nd.total)) s req
                            e in
                        let s' =
                          (src.pull_near (d.of_int (pos hole))
                            (pos (op.node_footprint_cap - nd.total)) s).1 in
                        let (summed', cap', grown, few) =
                          heal_node_lem departed (admit req.prompt nd) s' fits
                            (admit-IsSummed req.prompt nd summed)
                            (admit-le req.prompt nd room cap) in
                        rw (roomy, e, heal_node)
                          (
                            summed',
                            cap',
                            omega (arith, grown, count-admit req.prompt nd),
                            omega arith,
                          )
                  ]
        ]
