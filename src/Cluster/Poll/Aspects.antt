-- ===== src/Cluster/Poll/Aspects.antt =====
-- The aspects in the order of the source, with the key of each.
use pok.Prelude.{List, [], ◌∷◌}

pub data Aspect : Type 0 where
  nodes : Aspect
  pods : Aspect
  namespaces : Aspect
  restarts : Aspect
  capacity : Aspect
  deployments : Aspect
  services : Aspect
  pvcs : Aspect
  cilium_bgp : Aspect
  cilium_endpoints : Aspect
  cilium_identities : Aspect
  cilium_nodes : Aspect
  cilium_lb_pools : Aspect
  cilium_policies : Aspect
  node_metrics : Aspect
  pod_metrics : Aspect
  versions : Aspect

abbrev pub aspects : List Aspect
aspects =
    nodes ∷ pods ∷ namespaces ∷ restarts ∷ capacity ∷ deployments ∷ services ∷ pvcs ∷ cilium_bgp
    ∷ cilium_endpoints ∷ cilium_identities ∷ cilium_nodes ∷ cilium_lb_pools ∷ cilium_policies
    ∷ node_metrics ∷ pod_metrics ∷ versions ∷ []
