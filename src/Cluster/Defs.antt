-- ===== src/Cluster/Defs.antt =====
-- `gate`, `cold_start` and `heal_node` of puls-engine/core/global_scheduler.cpp. `std::sort` is an
-- insertion sort, and `std::shuffle` over the seeded generator is a parameter.
use puls_rfc.Prelude.{
  ℕ, ◌+◌, ◌-◌, Bool, true, false, not, ◌&&◌, ◌||◌, Option, none, some, List, [], ◌∷◌, ◌++◌, pos,
  ltb, leb, length, sum_by, set, if◌then◌else◌,
}
use puls_rfc.Double.{Double}
use puls_rfc.OperatingPoint.{OperatingPoint}
use puls_rfc.RequestSource.{RequestSource}
use puls_rfc.Scan.{scan}
use puls_rfc.Steering.{far}

pub record ClusterNode : Type 0 where
  pub lengths : List ℕ
  pub total : ℕ

abbrev pub count : ClusterNode → ℕ
count nd = length nd.lengths

unfoldable pub admit : ℕ → ClusterNode → ClusterNode
admit len nd = record { lengths = nd.lengths ++ len ∷ []; total = nd.total + len }

pub record GateResult : Type 0 where
  pub kept : List ℕ
  pub edged : List ℕ

abbrev pub sum : List ℕ → ℕ
sum = sum_by (λ x. x)

-- Descending order.
unfoldable pub insert_desc : ℕ → List ℕ → List ℕ
insert_desc x [] = x ∷ []
insert_desc x (y ∷ ys) = if ltb x y then y ∷ insert_desc x ys else x ∷ y ∷ ys

unfoldable pub sort_desc : List ℕ → List ℕ
unfolding insert_desc
sort_desc [] = []
sort_desc (x ∷ xs) = insert_desc x (sort_desc xs)

module _ {W : Type 0} ⦃d : Double W⦄ where
  abbrev pub quotient : ℕ → ℕ → W
  quotient total n = d.div (d.of_int (pos total)) (d.of_int (pos n))

  unfoldable pub mean : ClusterNode → W
  mean nd = elim nd.lengths [ [] ↦ d.of_int (pos 0) | x ∷ xs ↦ quotient nd.total (length (x ∷ xs)) ]

  module _ (op : OperatingPoint W) where
    -- `ceil = ctx_balance + edge_band`
    abbrev pub gate_ceil : W
    gate_ceil = d.add op.ctx_balance op.edge_band

    -- The loop of `gate` over `draw[i..]`, whose sum is `total`: it sheds the head while the mean
    -- exceeds the ceiling.
    unfoldable pub gate_loop : ℕ → List ℕ → GateResult
    gate_loop total [] = record { kept = []; edged = [] }
    gate_loop total (x ∷ xs) =
        let rest = gate_loop (total - x) xs in
        if d.lt gate_ceil (quotient total (length (x ∷ xs)))
        then record rest { edged = x ∷ rest.edged }
        else record { kept = x ∷ xs; edged = [] }

    unfoldable pub gate : List ℕ → GateResult
    unfolding gate_loop sort_desc
    gate draw = let sorted = sort_desc draw in gate_loop (sum sorted) sorted

    -- `can_fit`, and `|mean after the admission - ctx_balance|`.
    abbrev pub can_fit : ℕ → ClusterNode → Bool
    can_fit len nd = not (ltb op.node_footprint_cap (nd.total + len) || leb op.node_max (count nd))

    abbrev pub deviation : ℕ → ClusterNode → W
    deviation len nd = d.fabs (d.sub (quotient (nd.total + len) (count nd + 1)) op.ctx_balance)

    abbrev pub place_test : ℕ → W → ClusterNode → Bool
    place_test len best_dev nd = can_fit len nd && d.lt (deviation len nd) best_dev

    unfoldable pub find_node : ℕ → List ClusterNode → Option (ℕ × ClusterNode)
    unfolding scan
    find_node len nodes = scan (place_test len) (deviation len) 0 far none nodes

    -- The nodes, and the number of requests left over.
    unfoldable pub place_all : List ℕ → List ClusterNode → ℕ → List ClusterNode × ℕ
    unfolding find_node admit
    place_all [] nodes leftover = (nodes, leftover)
    place_all (len ∷ kept) nodes leftover = elim (find_node len nodes) [
      | none ↦ place_all kept nodes (leftover + 1)
      | some (best, nd) ↦ place_all kept (set nodes best (admit len nd)) leftover
    ]

    unfoldable pub cold_start : (List ℕ → List ℕ) → List ℕ → List ClusterNode → List ClusterNode × ℕ
    unfolding place_all
    cold_start shuffle kept nodes = place_all (shuffle kept) nodes 0

    module _ {S : Type 0} (src : RequestSource W S) where
      -- The node, the number of pulls, and the source. `cap - total <= 0` is `cap <= total`.
      unfoldable pub heal_node : List ℕ → ClusterNode → S → ClusterNode × ℕ × S
      unfolding admit
      heal_node [] nd s = (nd, 0, s)
      heal_node (hole ∷ departed) nd s = elim (leb op.node_footprint_cap nd.total) [
        | true ↦ (nd, 0, s)
        | false ↦
            let (r, s') =
              src.pull_near (d.of_int (pos hole)) (pos (op.node_footprint_cap - nd.total)) s in
            elim r [
              | none ↦ (nd, 0, s')
              | some req ↦
                  let (nd', pulls, s'') = heal_node departed (admit req.prompt nd) s' in
                  (nd', pulls + 1, s'')
            ]
      ]
