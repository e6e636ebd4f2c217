-- ===== src/Cluster/Usage/Tests.antt =====
-- Two nodes, under two orders.
use pok.Cluster.Sorting.{IsRearranged}
use pok.Cluster.Usage.Capacity.{summed, aspect_capacity-summed}
use pok.Cluster.Usage.{Capacities, NodeStatus, Claim, capacity_report, aspect_capacity, aspect_pvcs}
use pok.Cost.Samples.{dollars}
use pok.Prelude.Bytes.{bytes, bytes_beq}
use pok.Prelude.Maps.{index, insert}
use pok.Prelude.Words.{signed}
use pok.Prelude.{ℕ, ◌^◌, ◌*◌, ◌≡◌, refl, none, some, List, [], ◌∷◌, arith}

abbrev cores : ℕ → ℕ → Capacities
cores n m = record {
  cpu = record { milli_value = n * 1000; whole = n };
  memory = record { milli_value = m * 2 ^ 30 * 1000; whole = m * 2 ^ 30 };
}

abbrev big : NodeStatus
big = record { capacity = cores 8 32; allocatable = cores 7 30 }

abbrev small : NodeStatus
small = record { capacity = cores 2 4; allocatable = cores 2 3 }

both_orders : IsRearranged (big ∷ small ∷ []) (small ∷ big ∷ [])
both_orders test = ground arith

aspect_capacity-summed_example :
    aspect_capacity dollars (some (small ∷ big ∷ []))
    ≡ some (record {
      aspect = bytes "capacity";
      value = capacity_report dollars (summed (big ∷ small ∷ []));
    })
aspect_capacity-summed_example =
    aspect_capacity-summed dollars (big ∷ small ∷ []) (small ∷ big ∷ []) both_orders

two_nodes :
    capacity_report dollars (summed (big ∷ small ∷ []))
    ≡ record { cpu_cores = 10; memory_gib = 36; alloc_cpu_cores = 9; alloc_memory_gib = 33 }
unfolding capacity_report signed
two_nodes = refl

abbrev claims : List (Claim dollars)
claims =
    record {
      phase = bytes "Bound";
      storage = some (record { milli_value = 0; whole = 3 * 2 ^ 30 });
    }
    ∷ record { phase = bytes "Pending"; storage = none }
    ∷ record { phase = bytes "Bound"; storage = some (record { milli_value = 0; whole = 2 ^ 31 }) }
    ∷ []

three_claims :
    aspect_pvcs dollars (some claims)
    ≡ some (record {
      aspect = bytes "pvcs";
      value = record { total = 3; bound = 2; pending = 1; requested_gib = 5 };
    })
unfolding aspect_pvcs index insert bytes_beq
three_claims = refl
