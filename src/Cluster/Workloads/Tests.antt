-- ===== src/Cluster/Workloads/Tests.antt =====
-- Three pods, two deployments and two nodes.
use pok.Cluster.Sorting.{IsSorter, IsOrder, sort, sort-IsSorted, sort-IsRearranged}
use pok.Cluster.Workloads.Rolled.{IsReadyOnce}
use pok.Cluster.Workloads.Restarts.{all_restarts, restarted, more, aspect_restarts-top}
use pok.Cluster.Workloads.Top.{IsTop}
use pok.Cluster.Workloads.{
  Node, count_ready, Pod, PodRestarts, RestartsReport, less_int32, more_restarts, aspect_restarts,
  Deployment,
}
use pok.Prelude.Bytes.{Bytes, bytes, bytes_beq, bytes_key}
use pok.Prelude.Lists.{All}
use pok.Prelude.{◌≡◌, none, some, List, [], ◌∷◌, arith}

abbrev phases : List Bytes
phases = bytes "Running" ∷ bytes "Failed" ∷ bytes "Unknown" ∷ bytes "Running" ∷ []

abbrev deployments : List Deployment
deployments =
    record { namespace = bytes "b"; name = bytes "x"; replicas = none; ready_replicas = 0 }
    ∷ record { namespace = bytes "a"; name = bytes "y"; replicas = some 2; ready_replicas = 2 }
    ∷ []

abbrev nodes : List Node
nodes =
    record {
      name = bytes "n2";
      conditions = record { condition_type = bytes "Ready"; status = bytes "True" } ∷ [];
    }
    ∷ record {
      name = bytes "n1";
      conditions = record { condition_type = bytes "Ready"; status = bytes "False" } ∷ [];
    }
    ∷ []

nodes-All-IsReadyOnce : All IsReadyOnce nodes
unfolding count_ready bytes_beq
nodes-All-IsReadyOnce = (omega arith, (omega arith, tt))

abbrev pods : List Pod
pods =
    record { namespace = bytes "a"; name = bytes "p"; restart_counts = 1 ∷ 2 ∷ [] }
    ∷ record { namespace = bytes "a"; name = bytes "q"; restart_counts = 0 ∷ [] }
    ∷ record { namespace = bytes "b"; name = bytes "r"; restart_counts = 7 ∷ [] }
    ∷ []

more_restarts-IsOrder : IsOrder more_restarts
unfolding more_restarts less_int32
more_restarts-IsOrder = record {
  asymmetric = λ x y h. ground arith;
  chained = λ x y z h k. ground arith;
}

sort-IsSorter : IsSorter more_restarts (sort more_restarts)
sort-IsSorter xs =
    (sort-IsSorted more_restarts more_restarts-IsOrder xs, sort-IsRearranged more_restarts xs)

aspect_restarts-top_example :
    (r : RestartsReport) × (omitted : List PodRestarts) × (aspect_restarts
        (sort more_restarts)
        (some pods)
      ≡ some (record { aspect = bytes "restarts"; value = r }))
    × (r.total ≡ all_restarts pods)
    × IsTop more 5 (restarted pods) r.top omitted
aspect_restarts-top_example =
    aspect_restarts-top (sort more_restarts) pods sort-IsSorter (omega arith)
