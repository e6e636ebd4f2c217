-- ===== src/Cluster/Usage.antt =====
-- What the nodes have and what volumes were asked for: `aspectCapacity` and `aspectPVCs` of
-- apps/clusterinfo/main.go. A quantity of Kubernetes is the pair of int64
-- that its methods MilliValue and Value return.
pub mod Summed
pub mod Capacity
mod Tests
use pok.Cluster.Workloads.{Message, msg, qualified, tally, at_most}
use pok.Cluster.Sorting.{less_bytes}
use pok.Prelude.Bytes.{Bytes, bytes, bytes_key}
use pok.Prelude.Floats.{Floats}
use pok.Prelude.Int.{pos}
use pok.Prelude.Lists.{length}
use pok.Prelude.Maps.{Map, index}
use pok.Prelude.Words.{add_int64, signed, less_int64, div_int64}
use pok.Prelude.{ℕ, ◌+◌, ◌^◌, Bool, Option, none, some, List, [], ◌∷◌, map}

pub record Quantity : Type 0 where
  pub milli_value : ℕ
  pub whole : ℕ

pub record Capacities : Type 0 where
  pub cpu : Quantity
  pub memory : Quantity

pub record NodeStatus : Type 0 where
  pub capacity : Capacities
  pub allocatable : Capacities

pub record Sums : Type 0 where
  pub cpu_m : ℕ
  pub mem_b : ℕ
  pub a_cpu_m : ℕ
  pub a_mem_b : ℕ

unfoldable pub add_node : NodeStatus → Sums → Sums
unfolding add_int64
add_node n sums = record {
  cpu_m = add_int64 sums.cpu_m n.capacity.cpu.milli_value;
  mem_b = add_int64 sums.mem_b n.capacity.memory.whole;
  a_cpu_m = add_int64 sums.a_cpu_m n.allocatable.cpu.milli_value;
  a_mem_b = add_int64 sums.a_mem_b n.allocatable.memory.whole;
}

unfoldable pub add_nodes : List NodeStatus → Sums → Sums
unfolding add_node
add_nodes [] sums = sums
add_nodes (n ∷ nodes) sums = add_nodes nodes (add_node n sums)

module _ (floats : Floats) where
  open floats use {Float, of_int, to_int, add, mul, div}

  -- Two decimals, the rest dropped.
  unfoldable pub round : Float → Float
  round f = div (of_int (to_int (mul f (of_int (pos 100))))) (of_int (pos 100))

  pub record CapacityReport : Type 0 where
    pub cpu_cores : Float
    pub memory_gib : Float
    pub alloc_cpu_cores : Float
    pub alloc_memory_gib : Float

  unfoldable pub capacity_report : Sums → CapacityReport
  unfolding round signed
  capacity_report sums = record {
    cpu_cores = round (div (of_int (signed sums.cpu_m)) (of_int (pos 1000)));
    memory_gib = round (div (of_int (signed sums.mem_b)) (of_int (pos (2 ^ 30))));
    alloc_cpu_cores = round (div (of_int (signed sums.a_cpu_m)) (of_int (pos 1000)));
    alloc_memory_gib = round (div (of_int (signed sums.a_mem_b)) (of_int (pos (2 ^ 30))));
  }

  unfoldable pub aspect_capacity : Option (List NodeStatus) → Option (Message CapacityReport)
  unfolding add_nodes capacity_report msg
  aspect_capacity none = none
  aspect_capacity (some nodes) = msg (bytes "capacity") (
      capacity_report (add_nodes nodes (record { cpu_m = 0; mem_b = 0; a_cpu_m = 0; a_mem_b = 0 })))

  pub record Claim : Type 0 where
    pub phase : Bytes
    -- the storage that is requested, if any
    pub storage : Option Quantity

  pub record ClaimsReport : Type 0 where
    pub total : ℕ
    pub bound : ℕ
    pub pending : ℕ
    pub requested_gib : Float

  unfoldable pub add_claims : List Claim → Float → Float
  unfolding signed
  add_claims [] gib = gib
  add_claims (p ∷ claims) gib = add_claims claims (elim p.storage [
    | none ↦ gib
    | some q ↦ add gib (div (of_int (signed q.whole)) (of_int (pos (2 ^ 30))))
  ])

  unfoldable pub aspect_pvcs : Option (List Claim) → Option (Message ClaimsReport)
  unfolding tally add_claims round msg
  aspect_pvcs none = none
  aspect_pvcs (some claims) =
      let by_phase = tally (map (λ p. p.phase) claims) [] in
      msg (bytes "pvcs") (record {
        total = length claims;
        bound = index 0 (bytes "Bound") by_phase;
        pending = index 0 (bytes "Pending") by_phase;
        requested_gib = round (add_claims claims (of_int (pos 0)));
      })
