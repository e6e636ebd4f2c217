-- ===== src/Cluster/Metrics/Tests.antt =====
-- Two nodes, and two pods of which one has a container that cannot be read.
use pok.Cluster.Metrics.Nodes.{aspect_node_metrics-total}
use pok.Cluster.Metrics.Pods.{row_of, uses_more, aspect_pod_metrics-IsTop}
use pok.Cluster.Metrics.{
  Metric, NodeUsage, NodeMetricsReport, PodUsage, less_name, more_cpu, node_metric, pod_metrics,
  as_string, aspect_node_metrics, aspect_pod_metrics,
}
use pok.Cluster.Samples.{whole_quantity}
use pok.Cluster.Sorting.{
  IsSorted, IsRearranged, IsSorter, IsOrder, less_bytes, less_bytes-IsOrder, sort, sort-IsSorted,
  sort-IsRearranged,
}
use pok.Cluster.Usage.Summed.{sum_of}
use pok.Cluster.Workloads.Top.{IsTop}
use pok.Prelude.Bytes.{Bytes, bytes, bytes_beq, bytes_key}
use pok.Prelude.Maps.{Map, index}
use pok.Prelude.Words.{less_int64, div_int64, add_int64}
use pok.Prelude.{◌%◌, ◌^◌, ◌≡◌, refl, none, some, List, [], ◌∷◌, map, arith}

abbrev usage : Bytes → Map Bytes Bytes
usage cpu = (bytes "cpu", cpu) ∷ (bytes "memory", bytes "2097152") ∷ []

abbrev nodes : List NodeUsage
nodes =
    record { name = bytes "n2"; usage = usage (bytes "3") }
    ∷ record { name = bytes "n1"; usage = usage (bytes "1") }
    ∷ []

less_name-IsOrder : IsOrder less_name
unfolding less_name
less_name-IsOrder = record {
  asymmetric = λ x y. less_bytes-IsOrder.asymmetric x.name y.name;
  chained = λ x y z. less_bytes-IsOrder.chained x.name y.name z.name;
}

sort-IsSorter_names : IsSorter less_name (sort less_name)
sort-IsSorter_names xs =
    (sort-IsSorted less_name less_name-IsOrder xs, sort-IsRearranged less_name xs)

aspect_node_metrics-total_example :
    (r : NodeMetricsReport) × ((aspect_node_metrics whole_quantity (sort less_name) (some nodes)
        ≡ some (record { aspect = bytes "node-metrics"; value = r }))
      × IsSorted (λ a b. less_bytes a.name b.name) r.nodes
      × IsRearranged r.nodes (map (node_metric whole_quantity) nodes)
      × (r.total_cpu_m ≡ sum_of (λ m. m.cpu_m) r.nodes % 2 ^ 64)
      × (r.total_mem_mib ≡ sum_of (λ m. m.mem_mib) r.nodes % 2 ^ 64))
aspect_node_metrics-total_example =
    aspect_node_metrics-total whole_quantity (sort less_name) nodes sort-IsSorter_names

abbrev pods : List PodUsage
pods =
    record {
      namespace = bytes "a";
      name = bytes "p";
      containers =
          some ((bytes "cpu", some (bytes "2")) ∷ (bytes "memory", none) ∷ [])
          ∷ none
          ∷ some ((bytes "cpu", some (bytes "3")) ∷ [])
          ∷ [];
    }
    ∷ record { namespace = bytes "a"; name = bytes "q"; containers = [] }
    ∷ []

two_pods :
    pod_metrics whole_quantity pods
    ≡ record { name = bytes "a/p"; cpu_m = 5000; mem_mib = 0 }
      ∷ record { name = bytes "a/q"; cpu_m = 0; mem_mib = 0 }
      ∷ []
unfolding pod_metrics index as_string add_int64 bytes_beq div_int64
two_pods = refl

more_cpu-IsOrder : IsOrder more_cpu
unfolding more_cpu less_int64
more_cpu-IsOrder = record {
  asymmetric = λ x y h. ground arith;
  chained = λ x y z h k. ground arith;
}

sort-IsSorter_cpu : IsSorter more_cpu (sort more_cpu)
sort-IsSorter_cpu xs = (sort-IsSorted more_cpu more_cpu-IsOrder xs, sort-IsRearranged more_cpu xs)

aspect_pod_metrics-IsTop_example :
    (top omitted : List Metric) × (aspect_pod_metrics whole_quantity (sort more_cpu) (some pods)
      ≡ some (record { aspect = bytes "pod-metrics"; value = top }))
    × IsTop uses_more 8 (map (row_of whole_quantity) pods) top omitted
aspect_pod_metrics-IsTop_example =
    aspect_pod_metrics-IsTop whole_quantity (sort more_cpu) pods sort-IsSorter_cpu
