-- ===== src/Cluster/Workloads.antt =====
-- The aspects that apps/clusterinfo/main.go takes from the typed Kubernetes API. A listing is the
-- fields that the aspect reads, `none` being an error of the API. A message holds its value before
-- `json.Marshal`, which encodes every value here, and its time is left out.
pub mod Tallied
pub mod Rolled
pub mod Top
pub mod Restarts
mod Tests
use pok.Cluster.Sorting.{sort_strings}
use pok.Prelude.Bytes.{Bytes, bytes, bytes_key}
use pok.Prelude.Lists.{length}
use pok.Prelude.Maps.{Map, index, insert}
use pok.Prelude.Tests.{◌==◌, ltb, leb, if◌then◌else◌}
use pok.Prelude.{
  ℕ, zero, suc, ◌+◌, ◌-◌, ◌%◌, ◌^◌, Bool, true, false, ◌&&◌, not, Option, none, some, List, [], ◌∷◌,
  ◌++◌, map,
}

pub record Message (A : Type 0) : Type 0 where
  pub aspect : Bytes
  pub value : A

unfoldable pub msg : {A : Type 0} → Bytes → A → Option (Message A)
msg aspect value = some (record { aspect = aspect; value = value })

-- namespace/name
unfoldable pub qualified : Bytes → Bytes → Bytes
qualified namespace name = namespace ++ bytes "/" ++ name

-- An int32 is its bit pattern: the sum wraps, and the comparison flips the sign bit.
unfoldable pub add_int32 : ℕ → ℕ → ℕ
add_int32 a b = (a + b) % 2 ^ 32

unfoldable pub less_int32 : ℕ → ℕ → Bool
less_int32 a b = ltb ((a + 2 ^ 31) % 2 ^ 32) ((b + 2 ^ 31) % 2 ^ 32)

-- int64(r)
unfoldable pub extend : ℕ → ℕ
extend r = if ltb r (2 ^ 31) then r else r + (2 ^ 64 - 2 ^ 32)

pub record Condition : Type 0 where
  pub condition_type : Bytes
  pub status : Bytes

pub record Node : Type 0 where
  pub name : Bytes
  pub conditions : List Condition

pub record NodesReport : Type 0 where
  pub total : ℕ
  pub ready : ℕ
  pub names : List Bytes

unfoldable pub is_ready : Condition → Bool
is_ready c = c.condition_type == bytes "Ready" && c.status == bytes "True"

unfoldable pub count_ready : List Condition → ℕ
unfolding is_ready
count_ready [] = 0
count_ready (c ∷ conditions) =
    let rest = count_ready conditions in if is_ready c then suc rest else rest

unfoldable pub ready_nodes : List Node → ℕ
unfolding count_ready
ready_nodes [] = 0
ready_nodes (n ∷ nodes) = count_ready n.conditions + ready_nodes nodes

unfoldable pub aspect_nodes : Option (List Node) → Option (Message NodesReport)
unfolding ready_nodes msg
aspect_nodes none = none
aspect_nodes (some nodes) = msg (bytes "nodes") (record {
  total = length nodes;
  ready = ready_nodes nodes;
  names = sort_strings (map (λ n. n.name) nodes);
})

-- counts[k]++ over the keys
unfoldable pub tally : List Bytes → Map Bytes ℕ → Map Bytes ℕ
tally [] counts = counts
tally (k ∷ ks) counts = tally ks (insert k (index 0 k counts + 1) counts)

pub record PodsReport : Type 0 where
  pub total : ℕ
  pub running : ℕ
  pub pending : ℕ
  pub succeeded : ℕ
  pub failed : ℕ

-- From the phase of each pod.
unfoldable pub aspect_pods : Option (List Bytes) → Option (Message PodsReport)
unfolding tally msg
aspect_pods none = none
aspect_pods (some phases) =
    let by_phase = tally phases [] in
    msg (bytes "pods") (record {
      total = length phases;
      running = index 0 (bytes "Running") by_phase;
      pending = index 0 (bytes "Pending") by_phase;
      succeeded = index 0 (bytes "Succeeded") by_phase;
      failed = index 0 (bytes "Failed") by_phase;
    })

pub record NamesReport : Type 0 where
  pub count : ℕ
  pub names : List Bytes

unfoldable pub aspect_namespaces : Option (List Bytes) → Option (Message NamesReport)
unfolding msg
aspect_namespaces none = none
aspect_namespaces (some names) =
    msg (bytes "namespaces") (record { count = length names; names = sort_strings names })

pub record Pod : Type 0 where
  pub namespace : Bytes
  pub name : Bytes
  -- the restart count of each container
  pub restart_counts : List ℕ

pub record PodRestarts : Type 0 where
  pub pod : Bytes
  pub restarts : ℕ

pub record RestartsReport : Type 0 where
  pub total : ℕ
  pub top : List PodRestarts

-- r += c.RestartCount
unfoldable pub sum_int32 : ℕ → List ℕ → ℕ
unfolding add_int32
sum_int32 r [] = r
sum_int32 r (c ∷ counts) = sum_int32 (add_int32 r c) counts

unfoldable pub total_restarts : ℕ → List Pod → ℕ
unfolding sum_int32 extend
total_restarts total [] = total
total_restarts total (p ∷ pods) =
    total_restarts ((total + extend (sum_int32 0 p.restart_counts)) % 2 ^ 64) pods

-- The pods that have restarted.
unfoldable pub offenders : List Pod → List PodRestarts
unfolding sum_int32 less_int32 qualified
offenders [] = []
offenders (p ∷ pods) =
    let rest = offenders pods in
    if less_int32 0 (sum_int32 0 p.restart_counts)
    then record { pod = qualified p.namespace p.name; restarts = sum_int32 0 p.restart_counts }
      ∷ rest
    else rest

unfoldable pub more_restarts : PodRestarts → PodRestarts → Bool
unfolding less_int32
more_restarts a b = less_int32 b.restarts a.restarts

-- xs[:n], where there are more
unfoldable pub at_most {ℓ} : {A : Type ℓ} → ℕ → List A → List A
at_most zero xs = []
at_most (suc n) [] = []
at_most (suc n) (x ∷ xs) = x ∷ at_most n xs

-- `sort_slice` is `sort.Slice` by `more_restarts`.
unfoldable pub aspect_restarts :
    (List PodRestarts → List PodRestarts) → Option (List Pod) → Option (Message RestartsReport)
unfolding total_restarts offenders at_most msg
aspect_restarts sort_slice none = none
aspect_restarts sort_slice (some pods) =
    msg (bytes "restarts")
      (record { total = total_restarts 0 pods; top = at_most 5 (sort_slice (offenders pods)) })

pub record Deployment : Type 0 where
  pub namespace : Bytes
  pub name : Bytes
  pub replicas : Option ℕ
  pub ready_replicas : ℕ

pub record DeploymentsReport : Type 0 where
  pub total : ℕ
  pub ready : ℕ
  pub not_ready : List Bytes

unfoldable pub wanted : Deployment → ℕ
wanted d = elim d.replicas [ none ↦ 1 | some n ↦ n ]

unfoldable pub is_available : Deployment → Bool
unfolding wanted less_int32
is_available d = not (less_int32 d.ready_replicas (wanted d))

unfoldable pub available : List Deployment → ℕ
unfolding is_available
available [] = 0
available (d ∷ deployments) =
    let rest = available deployments in if is_available d then suc rest else rest

unfoldable pub unavailable : List Deployment → List Bytes
unfolding is_available qualified
unavailable [] = []
unavailable (d ∷ deployments) =
    let rest = unavailable deployments in
    if is_available d then rest else qualified d.namespace d.name ∷ rest

unfoldable pub aspect_deployments : Option (List Deployment) → Option (Message DeploymentsReport)
unfolding available unavailable msg
aspect_deployments none = none
aspect_deployments (some deployments) = msg (bytes "deployments") (record {
  total = length deployments;
  ready = available deployments;
  not_ready = sort_strings (unavailable deployments);
})
