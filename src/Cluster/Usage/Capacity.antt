-- ===== src/Cluster/Usage/Capacity.antt =====
-- The sums of the capacity aspect.
use pok.Cluster.Sorting.{IsRearranged}
use pok.Cluster.Usage.Summed.{sum_of, sum_of-IsRearranged}
use pok.Cluster.Usage.{NodeStatus, Sums, add_node, add_nodes, capacity_report, aspect_capacity}
use pok.Cluster.Workloads.{msg}
use pok.Prelude.Bytes.{bytes}
use pok.Prelude.Floats.{Floats}
use pok.Prelude.Words.{add_int64}
use pok.Prelude.{ℕ, ◌+◌, ◌%◌, ◌^◌, ◌<◌, ◌≡◌, refl, some, List, [], ◌∷◌, arith}

-- The sums over a listing, each modulo 2^64.
abbrev pub summed : List NodeStatus → Sums
summed nodes = record {
  cpu_m = sum_of (λ n. n.capacity.cpu.milli_value) nodes % 2 ^ 64;
  mem_b = sum_of (λ n. n.capacity.memory.whole) nodes % 2 ^ 64;
  a_cpu_m = sum_of (λ n. n.allocatable.cpu.milli_value) nodes % 2 ^ 64;
  a_mem_b = sum_of (λ n. n.allocatable.memory.whole) nodes % 2 ^ 64;
}

module _ (field : Sums → ℕ) (part : NodeStatus → ℕ)
    (adds : (n : NodeStatus) (s : Sums) → field (add_node n s) ≡ (field s + part n) % 2 ^ 64) where
  field-add_nodes :
      (nodes : List NodeStatus) (s : Sums)
      → field s < 2 ^ 64
      → field (add_nodes nodes s) ≡ (field s + sum_of part nodes) % 2 ^ 64
  unfolding add_nodes
  field-add_nodes [] s h = omega arith
  field-add_nodes (n ∷ nodes) s h =
      omega (arith, adds n s, field-add_nodes nodes (add_node n s) (omega (arith, adds n s)))

  field-summed :
      (xs ys : List NodeStatus) (s : Sums)
      → field s ≡ 0
      → IsRearranged xs ys
      → field (add_nodes ys s) ≡ sum_of part xs % 2 ^ 64
  field-summed xs ys s z r =
      omega (arith, field-add_nodes ys s (omega arith), sum_of-IsRearranged part xs ys r)

abbrev no_sums : Sums
no_sums = record { cpu_m = 0; mem_b = 0; a_cpu_m = 0; a_mem_b = 0 }

add_nodes-summed : (xs ys : List NodeStatus) → IsRearranged xs ys → add_nodes ys no_sums ≡ summed xs
unfolding add_node add_int64
add_nodes-summed xs ys r = ground (
  arith,
  field-summed (λ s. s.cpu_m) (λ n. n.capacity.cpu.milli_value) (λ n s. refl) xs ys no_sums refl r,
  field-summed (λ s. s.mem_b) (λ n. n.capacity.memory.whole) (λ n s. refl) xs ys no_sums refl r,
  field-summed (λ s. s.a_cpu_m) (λ n. n.allocatable.cpu.milli_value) (λ n s. refl) xs ys no_sums
      refl r,
  field-summed (λ s. s.a_mem_b) (λ n. n.allocatable.memory.whole) (λ n s. refl) xs ys no_sums refl
      r,
)

-- The capacity report is made of four sums over the nodes, of what they have and what they can give
-- away, of millicores and of bytes, each modulo 2^64. So it is the same in whatever order the API
-- lists the nodes.
pub aspect_capacity-summed :
    (floats : Floats) (xs ys : List NodeStatus)
    → IsRearranged xs ys
    → aspect_capacity floats (some ys)
      ≡ some (record { aspect = bytes "capacity"; value = capacity_report floats (summed xs) })
unfolding aspect_capacity msg
aspect_capacity-summed floats xs ys r = rw (add_nodes-summed xs ys r)
