-- ===== src/Node/Pull.antt =====
-- `pull_near` and `push_back` of puls-engine/core/node_scheduler.cpp, by what the source returns.
use puls_rfc.Prelude.{◌≡◌, none, some, [], ◌∷◌, ◌++◌}
use puls_rfc.Double.{Double}
use puls_rfc.OperatingPoint.{OperatingPoint}
use puls_rfc.RequestSource.{PulledRequest, RequestSource}
use puls_rfc.Node.Defs.{NodeScheduler, admitted, node_cap_room, pull_into}

module _ {W : Type 0} ⦃d : Double W⦄ (op : OperatingPoint W) {S : Type 0} (src : RequestSource W S)
    (ideal : W) (n : NodeScheduler S) where
  pub pull_into-none :
      {s : S}
      → src.pull_near ideal (node_cap_room op) n.source ≡ (none, s)
      → pull_into op src ideal n ≡ record { source = s; pool = n.pool }
  unfolding pull_into
  pull_into-none e = rw (e, pull_into)

  pub pull_into-some :
      {r : PulledRequest} {s : S}
      → src.pull_near ideal (node_cap_room op) n.source ≡ (some r, s)
      → pull_into op src ideal n ≡ record { source = s; pool = n.pool ++ admitted r ∷ [] }
  unfolding pull_into
  pull_into-some e = rw (e, pull_into)
