-- ===== src/Cluster/Metrics.antt =====
-- What the nodes and the pods use, from the Metrics API: `aspectNodeMetrics` and `aspectPodMetrics` of
-- apps/clusterinfo/main.go. The strings stand under "usage"; `none` is a value that is no string.
pub mod Nodes
pub mod Pods
mod Tests
use pok.Cluster.Sorting.{less_bytes}
use pok.Cluster.Usage.{Quantity}
use pok.Cluster.Workloads.{Message, msg, qualified, at_most}
use pok.Prelude.Bytes.{Bytes, bytes, bytes_key}
use pok.Prelude.Maps.{Map, index}
use pok.Prelude.Words.{add_int64, less_int64, div_int64}
use pok.Prelude.{ℕ, ◌^◌, Bool, Option, none, some, List, [], ◌∷◌, ◌++◌}

-- A node or a pod, and what it uses.
pub record Metric : Type 0 where
  pub name : Bytes
  pub cpu_m : ℕ
  pub mem_mib : ℕ

pub record NodeUsage : Type 0 where
  pub name : Bytes
  pub usage : Map Bytes Bytes

pub record NodeMetricsReport : Type 0 where
  pub nodes : List Metric
  pub total_cpu_m : ℕ
  pub total_mem_mib : ℕ

unfoldable pub less_name : Metric → Metric → Bool
unfolding less_bytes
less_name a b = less_bytes a.name b.name

pub record PodUsage : Type 0 where
  pub namespace : Bytes
  pub name : Bytes
  -- the usage of each container, `none` where it is no object
  pub containers : List (Option (Map Bytes (Option Bytes)))

unfoldable pub more_cpu : Metric → Metric → Bool
unfolding less_int64
more_cpu a b = less_int64 b.cpu_m a.cpu_m

unfoldable pub as_string : Option Bytes → Bytes
as_string none = []
as_string (some s) = s

-- `parse_quantity` is `resource.ParseQuantity`, `none` being its error.
module _ (parse_quantity : Bytes → Option Quantity) where
  unfoldable pub quantity_milli : Bytes → ℕ
  quantity_milli s = elim (parse_quantity s) [ none ↦ 0 | some q ↦ q.milli_value ]

  unfoldable pub quantity_mib : Bytes → ℕ
  unfolding div_int64
  quantity_mib s = elim (parse_quantity s) [ none ↦ 0 | some q ↦ div_int64 q.whole (2 ^ 20) ]

  unfoldable pub node_metric : NodeUsage → Metric
  unfolding quantity_milli quantity_mib
  node_metric it = record {
    name = it.name;
    cpu_m = quantity_milli (index [] (bytes "cpu") it.usage);
    mem_mib = quantity_mib (index [] (bytes "memory") it.usage);
  }

  unfoldable pub add_node : NodeUsage → NodeMetricsReport → NodeMetricsReport
  unfolding node_metric add_int64
  add_node it r = record {
    nodes = r.nodes ++ node_metric it ∷ [];
    total_cpu_m = add_int64 r.total_cpu_m (node_metric it).cpu_m;
    total_mem_mib = add_int64 r.total_mem_mib (node_metric it).mem_mib;
  }

  unfoldable pub add_nodes : List NodeUsage → NodeMetricsReport → NodeMetricsReport
  unfolding add_node
  add_nodes [] r = r
  add_nodes (it ∷ items) r = add_nodes items (add_node it r)

  -- `sort_slice` is `sort.Slice` by `less_name`.
  unfoldable pub aspect_node_metrics :
      (List Metric → List Metric) → Option (List NodeUsage) → Option (Message NodeMetricsReport)
  unfolding add_nodes msg
  aspect_node_metrics sort_slice none = none
  aspect_node_metrics sort_slice (some items) =
      let r = add_nodes items (record { nodes = []; total_cpu_m = 0; total_mem_mib = 0 }) in
      msg (bytes "node-metrics") (record r { nodes = sort_slice r.nodes })

  -- A container whose usage cannot be read is skipped.
  unfoldable pub add_container : Option (Map Bytes (Option Bytes)) → Metric → Metric
  unfolding quantity_milli quantity_mib add_int64 as_string
  add_container none m = m
  add_container (some u) m = record m {
    cpu_m = add_int64 m.cpu_m (quantity_milli (as_string (index none (bytes "cpu") u)));
    mem_mib = add_int64 m.mem_mib (quantity_mib (as_string (index none (bytes "memory") u)));
  }

  unfoldable pub add_containers : List (Option (Map Bytes (Option Bytes))) → Metric → Metric
  unfolding add_container
  add_containers [] m = m
  add_containers (c ∷ containers) m = add_containers containers (add_container c m)

  unfoldable pub pod_metric : PodUsage → Metric
  unfolding add_containers qualified
  pod_metric it =
      add_containers it.containers
        (record { name = qualified it.namespace it.name; cpu_m = 0; mem_mib = 0 })

  unfoldable pub pod_metrics : List PodUsage → List Metric
  unfolding pod_metric
  pod_metrics [] = []
  pod_metrics (it ∷ items) = pod_metric it ∷ pod_metrics items

  -- `sort_slice` is `sort.Slice` by `more_cpu`.
  unfoldable pub aspect_pod_metrics :
      (List Metric → List Metric) → Option (List PodUsage) → Option (Message (List Metric))
  unfolding pod_metrics at_most msg
  aspect_pod_metrics sort_slice none = none
  aspect_pod_metrics sort_slice (some items) =
      msg (bytes "pod-metrics") (at_most 8 (sort_slice (pod_metrics items)))
