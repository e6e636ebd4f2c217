-- ===== src/Cluster/Metrics/Pods.antt =====
-- The pods that use most of the processors.
use pok.Cluster.Metrics.{
  Metric, PodUsage, more_cpu, as_string, quantity_milli, quantity_mib, add_container,
  add_containers, pod_metric, pod_metrics, aspect_pod_metrics,
}
use pok.Cluster.Sorting.{count, IsSorter}
use pok.Cluster.Usage.Summed.{sum_of}
use pok.Cluster.Usage.{Quantity}
use pok.Cluster.Workloads.Top.{IsTop, left_out, at_most-IsTop, IsTop-other}
use pok.Cluster.Workloads.{msg, qualified, at_most}
use pok.Prelude.Bytes.{Bytes, bytes, bytes_key}
use pok.Prelude.Maps.{Map, index}
use pok.Prelude.Int.{ltb_ℤ}
use pok.Prelude.Tests.{leb}
use pok.Prelude.Words.{add_int64, signed, less_int64}
use pok.Prelude.{
  ℕ, ◌+◌, ◌%◌, ◌^◌, ◌<◌, ◌≡◌, refl, Bool, false, Option, none, some, List, [], ◌∷◌, map, arith,
}

-- The first pod uses more CPU, as int64.
abbrev pub uses_more : Metric → Metric → Bool
uses_more a b = ltb_ℤ (signed b.cpu_m) (signed a.cpu_m)

abbrev is_no_int64 : Metric → Bool
is_no_int64 m = leb (2 ^ 64) m.cpu_m

more_cpu-uses_more :
    (a b : Metric) → is_no_int64 a ≡ false → is_no_int64 b ≡ false → more_cpu a b ≡ uses_more a b
unfolding more_cpu less_int64 signed
more_cpu-uses_more a b h k = ground arith

module _ (parse_quantity : Bytes → Option Quantity) where
  -- What one container uses, or nothing if that cannot be read.
  abbrev pub container_cpu : Option (Map Bytes (Option Bytes)) → ℕ
  container_cpu none = 0
  container_cpu (some u) = quantity_milli parse_quantity (as_string (index none (bytes "cpu") u))

  abbrev pub container_mem : Option (Map Bytes (Option Bytes)) → ℕ
  container_mem none = 0
  container_mem (some u) = quantity_mib parse_quantity (as_string (index none (bytes "memory") u))

  -- The row of a pod: its name, and the sums over its containers, modulo 2^64.
  abbrev pub row_of : PodUsage → Metric
  row_of it = record {
    name = qualified it.namespace it.name;
    cpu_m = sum_of container_cpu it.containers % 2 ^ 64;
    mem_mib = sum_of container_mem it.containers % 2 ^ 64;
  }

  add_containers-sum :
      (containers : List (Option (Map Bytes (Option Bytes)))) (m : Metric)
      → m.cpu_m < 2 ^ 64
      → m.mem_mib < 2 ^ 64
      → add_containers parse_quantity containers m ≡ record {
        name = m.name;
        cpu_m = (m.cpu_m + sum_of container_cpu containers) % 2 ^ 64;
        mem_mib = (m.mem_mib + sum_of container_mem containers) % 2 ^ 64;
      }
  unfolding add_containers add_container add_int64
  add_containers-sum [] m h k = ground arith
  add_containers-sum (none ∷ containers) m h k = ground (arith, add_containers-sum containers m)
  add_containers-sum (some u ∷ containers) m h k = ground (
    arith,
    add_containers-sum containers (add_container parse_quantity (some u) m) (omega arith)
        (omega arith),
  )

  pod_metrics-row_of : (items : List PodUsage) → pod_metrics parse_quantity items ≡ map row_of items
  unfolding pod_metrics pod_metric
  pod_metrics-row_of [] = refl
  pod_metrics-row_of (it ∷ items) = ground (
    arith,
    pod_metrics-row_of items,
    add_containers-sum it.containers
        (record { name = qualified it.namespace it.name; cpu_m = 0; mem_mib = 0 }) (omega arith)
        (omega arith),
  )

  all_int64 : (items : List PodUsage) → count is_no_int64 (map row_of items) ≡ 0
  all_int64 [] = refl
  all_int64 (it ∷ items) = ground (arith, all_int64 items)

  -- The pod-metrics report lists the eight pods that use most of the processors, or all if there are
  -- fewer, the greatest first. A pod's row sums what its containers use, modulo 2^64, and a container
  -- whose usage cannot be read counts as 0.
  pub aspect_pod_metrics-IsTop :
      (sort_slice : List Metric → List Metric) (items : List PodUsage)
      → IsSorter more_cpu sort_slice
      → (top omitted : List Metric) × (aspect_pod_metrics parse_quantity sort_slice (some items)
          ≡ some (record { aspect = bytes "pod-metrics"; value = top }))
        × IsTop uses_more 8 (map row_of items) top omitted
  unfolding aspect_pod_metrics msg
  aspect_pod_metrics-IsTop sort_slice items sorter = rw (pod_metrics-row_of items) (
    at_most 8 (sort_slice (map row_of items)),
    left_out 8 (sort_slice (map row_of items)),
    refl,
    IsTop-other more_cpu uses_more is_no_int64 more_cpu-uses_more 8 (map row_of items)
        (at_most 8 (sort_slice (map row_of items))) (left_out 8 (sort_slice (map row_of items)))
        (all_int64 items) (at_most-IsTop more_cpu sort_slice 8 (map row_of items) sorter),
  )
