-- ===== src/Cluster/Metrics/Nodes.antt =====
-- The rows and the totals of the node-metrics aspect.
use pok.Cluster.Metrics.{
  Metric, NodeUsage, NodeMetricsReport, less_name, node_metric, add_node, add_nodes,
  aspect_node_metrics,
}
use pok.Cluster.Sorting.{less_bytes, count, IsSorted, IsRearranged, IsSorter}
use pok.Cluster.Usage.Summed.{sum_of, sum_of-IsRearranged}
use pok.Cluster.Usage.{Quantity}
use pok.Cluster.Workloads.{msg}
use pok.Prelude.Bytes.{Bytes, bytes}
use pok.Prelude.Words.{add_int64}
use pok.Prelude.{
  ℕ, ◌+◌, ◌%◌, ◌^◌, ◌<◌, ◌≡◌, ◌∙◌, refl, ap, Option, some, List, [], ◌∷◌, ◌++◌, map, arith,
}
use mathlib.Core.List.{append-nil, append_assoc}

module _ (parse_quantity : Bytes → Option Quantity) where
  nodes-add_nodes :
      (items : List NodeUsage) (r : NodeMetricsReport)
      → (add_nodes parse_quantity items r).nodes ≡ r.nodes ++ map (node_metric parse_quantity) items
  unfolding add_nodes add_node
  nodes-add_nodes [] r = rw (append-nil r.nodes)
  nodes-add_nodes (it ∷ items) r =
      nodes-add_nodes items (add_node parse_quantity it r)
      ∙ append_assoc r.nodes (node_metric parse_quantity it ∷ [])
          (map (node_metric parse_quantity) items)

  module _ (field : NodeMetricsReport → ℕ) (part : Metric → ℕ)
      (adds : (it : NodeUsage) (r : NodeMetricsReport)
        → field (add_node parse_quantity it r)
          ≡ (field r + part (node_metric parse_quantity it)) % 2 ^ 64) where
    field-add_nodes :
        (items : List NodeUsage) (r : NodeMetricsReport)
        → field r < 2 ^ 64
        → field (add_nodes parse_quantity items r)
          ≡ (field r + sum_of part (map (node_metric parse_quantity) items)) % 2 ^ 64
    unfolding add_nodes
    field-add_nodes [] r h = omega arith
    field-add_nodes (it ∷ items) r h = omega (
      arith,
      adds it r,
      field-add_nodes items (add_node parse_quantity it r) (omega (arith, adds it r)),
    )

    -- The total is the sum of the rows, also after they are sorted.
    field-sorted :
        (items : List NodeUsage) (r : NodeMetricsReport) (rows : List Metric)
        → field r ≡ 0
        → IsRearranged rows (map (node_metric parse_quantity) items)
        → field (add_nodes parse_quantity items r) ≡ sum_of part rows % 2 ^ 64
    field-sorted items r rows z p = omega (
      arith,
      field-add_nodes items r (omega arith),
      sum_of-IsRearranged part rows (map (node_metric parse_quantity) items) p,
    )

  abbrev no_nodes : NodeMetricsReport
  no_nodes = record { nodes = []; total_cpu_m = 0; total_mem_mib = 0 }

  -- The node-metrics report has one row for each node, with its name and what its usage parses to,
  -- in the order of the names; and its totals are the sums of the rows that it shows, modulo 2^64.
  pub aspect_node_metrics-total :
      (sort_slice : List Metric → List Metric) (items : List NodeUsage)
      → IsSorter less_name sort_slice
      → (r : NodeMetricsReport) × ((aspect_node_metrics parse_quantity sort_slice (some items)
            ≡ some (record { aspect = bytes "node-metrics"; value = r }))
          × IsSorted (λ a b. less_bytes a.name b.name) r.nodes
          × IsRearranged r.nodes (map (node_metric parse_quantity) items)
          × (r.total_cpu_m ≡ sum_of (λ m. m.cpu_m) r.nodes % 2 ^ 64)
          × (r.total_mem_mib ≡ sum_of (λ m. m.mem_mib) r.nodes % 2 ^ 64))
  unfolding aspect_node_metrics less_name msg
  aspect_node_metrics-total sort_slice items sorter =
      let r = add_nodes parse_quantity items no_nodes in
      let rows = map (node_metric parse_quantity) items in
      let listed : r.nodes ≡ rows = nodes-add_nodes items no_nodes in
      let sorted : IsSorted (λ a b. less_bytes a.name b.name) (sort_slice r.nodes)
          × IsRearranged (sort_slice r.nodes) rows =
        ((sorter r.nodes).0, λ test. (sorter r.nodes).1 test ∙ ap (count test) listed) in
      (
        record r { nodes = sort_slice r.nodes },
        (
          refl,
          sorted.0,
          sorted.1,
          unfold add_node add_int64 in
              field-sorted (λ r. r.total_cpu_m) (λ m. m.cpu_m) (λ it r. refl) items no_nodes
                (sort_slice r.nodes) refl sorted.1,
          unfold add_node add_int64 in
              field-sorted (λ r. r.total_mem_mib) (λ m. m.mem_mib) (λ it r. refl) items no_nodes
                (sort_slice r.nodes) refl sorted.1,
        ),
      )
