-- ===== src/Cluster/Workloads/Rolled.antt =====
-- The rollouts of the deployments aspect, and the names of nodes and namespaces.
use pok.Cluster.Sorting.{
  count, IsSorted, IsRearranged, less_bytes, sort_strings, sort_strings-IsSorted,
}
use pok.Cluster.Workloads.{
  msg, qualified, Deployment, DeploymentsReport, is_available, available, unavailable,
  aspect_deployments, Node, NodesReport, count_ready, ready_nodes, aspect_nodes,
}
use pok.Prelude.Bytes.{Bytes, bytes}
use pok.Prelude.Lists.{length, All, length-map}
use pok.Prelude.{◌+◌, ◌≤◌, ◌≡◌, refl, Bool, true, ◌&&◌, not, some, List, [], ◌∷◌, map, arith}

count-length : {A : Type 0} (xs : List A) → count (λ x. true) xs ≡ length xs
count-length [] = refl
count-length (x ∷ xs) = omega (arith, count-length xs)

pub length-sort_strings : (xs : List Bytes) → length (sort_strings xs) ≡ length xs
length-sort_strings xs =
    omega (
      arith,
      count-length xs,
      count-length (sort_strings xs),
      (sort_strings-IsSorted xs).1 λ x. true,
    )

available-length : (ds : List Deployment) → available ds + length (unavailable ds) ≡ length ds
unfolding available unavailable
available-length [] = omega arith
available-length (d ∷ ds) = ground (arith, available-length ds)

count-unavailable :
    (test : Bytes → Bool) (ds : List Deployment)
    → count test (unavailable ds)
      ≡ count (λ d. not (is_available d) && test (qualified d.namespace d.name)) ds
unfolding unavailable
count-unavailable test [] = refl
count-unavailable test (d ∷ ds) = ground (arith, count-unavailable test ds)

-- Every deployment is either counted as ready or listed by its name, and the list is in order.
pub aspect_deployments-partition :
    (ds : List Deployment)
    → (r : DeploymentsReport) × ((aspect_deployments (some ds)
          ≡ some (record { aspect = bytes "deployments"; value = r }))
        × (r.ready + length r.not_ready ≡ r.total)
        × IsSorted less_bytes r.not_ready
        × ((test : Bytes → Bool)
            → count test r.not_ready
              ≡ count (λ d. not (is_available d) && test (qualified d.namespace d.name)) ds))
unfolding aspect_deployments msg
aspect_deployments-partition ds = (
  record { total = length ds; ready = available ds; not_ready = sort_strings (unavailable ds) },
  (
    refl,
    omega (arith, length-sort_strings (unavailable ds), available-length ds),
    (sort_strings-IsSorted (unavailable ds)).0,
    λ test. cc ((sort_strings-IsSorted (unavailable ds)).1 test, count-unavailable test ds),
  ),
)

-- A node has one condition of type Ready at most.
abbrev pub IsReadyOnce : Node → Type 0
IsReadyOnce n = count_ready n.conditions ≤ 1

ready_nodes-length : (nodes : List Node) → All IsReadyOnce nodes → ready_nodes nodes ≤ length nodes
unfolding ready_nodes
ready_nodes-length [] h = omega arith
ready_nodes-length (n ∷ nodes) h = omega (arith, ready_nodes-length nodes h.1, h.0)

-- The nodes report has every node's name once for each node, in order, and no more ready nodes than
-- nodes, where each node has one ready condition at most.
pub aspect_nodes-names :
    (nodes : List Node)
    → All IsReadyOnce nodes
    → (r : NodesReport) × ((aspect_nodes (some nodes)
          ≡ some (record { aspect = bytes "nodes"; value = r }))
        × (r.ready ≤ r.total)
        × (length r.names ≡ r.total)
        × IsSorted less_bytes r.names
        × IsRearranged r.names (map (λ n. n.name) nodes))
unfolding aspect_nodes msg
aspect_nodes-names nodes h = (
  record {
    total = length nodes;
    ready = ready_nodes nodes;
    names = sort_strings (map (λ n. n.name) nodes);
  },
  (
    refl,
    ready_nodes-length nodes h,
    omega (arith, length-sort_strings (map (λ n. n.name) nodes), length-map (λ n. n.name) nodes),
    (sort_strings-IsSorted (map (λ n. n.name) nodes)).0,
    (sort_strings-IsSorted (map (λ n. n.name) nodes)).1,
  ),
)
