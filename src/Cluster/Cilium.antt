-- ===== src/Cluster/Cilium.antt =====
-- The aspects that apps/clusterinfo/main.go takes from Cilium's resources by the dynamic client.
-- `Dynamic` is Go's `any` with its type assertions; what `unstructured` finds at a path of an object
-- is a field of the item, nil being the empty list.
pub mod Peers
pub mod Ranges
mod Tests
use pok.Cluster.Sorting.{sort_strings}
use pok.Cluster.Workloads.{Message, NamesReport, msg}
use pok.Prelude.Bytes.{Bytes, bytes, bytes_key}
use pok.Prelude.Lists.{length}
use pok.Prelude.Maps.{Map, lookup}
use pok.Prelude.Tests.{◌==◌, if◌then◌else◌}
use pok.Prelude.{ℕ, ◌+◌, Bool, true, false, ◌&&◌, not, Option, none, some, List, [], ◌∷◌, ◌++◌, map}

pub record Dynamic : Type 1 where
  pub Any : Type 0
  pub as_string : Any → Option Bytes
  pub as_object : Any → Option (Map Bytes Any)
  pub as_list : Any → Option (List Any)

-- cilium-endpoints and cilium-identities: the number of items.
unfoldable pub aspect_count : {A : Type 0} → Bytes → Option (List A) → Option (Message ℕ)
unfolding msg
aspect_count aspect none = none
aspect_count aspect (some items) = msg aspect (length items)

unfoldable pub aspect_cilium_nodes : Option (List Bytes) → Option (Message NamesReport)
unfolding msg
aspect_cilium_nodes none = none
aspect_cilium_nodes (some names) =
    msg (bytes "cilium-nodes") (record { count = length names; names = sort_strings names })

pub record PoliciesReport : Type 0 where
  pub namespaced : ℕ
  pub clusterwide : ℕ

unfoldable pub aspect_cilium_policies :
    {A : Type 0} → Option (List A) → Option (List A) → Option (Message PoliciesReport)
unfolding msg
aspect_cilium_policies none ccnp = none
aspect_cilium_policies (some cnp) none = none
aspect_cilium_policies (some cnp) (some ccnp) =
    msg (bytes "cilium-policies") (record { namespaced = length cnp; clusterwide = length ccnp })

module _ (D : Dynamic) where
  -- s, _ := m[k].(string)
  unfoldable pub string_at : Bytes → Map Bytes D.Any → Bytes
  string_at k m = elim (lookup k m) [
    | none ↦ []
    | some v ↦ elim (D.as_string v) [ none ↦ [] | some s ↦ s ]
  ]

  -- l, _ := m[k].([]any)
  unfoldable pub list_at : Bytes → Map Bytes D.Any → List D.Any
  list_at k m = elim (lookup k m) [
    | none ↦ []
    | some v ↦ elim (D.as_list v) [ none ↦ [] | some l ↦ l ]
  ]

  pub record NodeConfig : Type 0 where
    pub name : Bytes
    -- status.bgpInstances
    pub bgp_instances : List D.Any

  pub record BgpReport : Type 0 where
    pub peers : ℕ
    pub established : ℕ
    pub down : List Bytes

  unfoldable pub is_established : Map Bytes D.Any → Bool
  unfolding string_at
  is_established pm = string_at (bytes "peeringState") pm == bytes "established"

  -- node->address(state)
  unfoldable pub down_peer : Bytes → Map Bytes D.Any → Bytes
  unfolding string_at
  down_peer node pm =
      node
      ++ bytes "->"
      ++ string_at (bytes "peerAddress") pm
      ++ bytes "("
      ++ string_at (bytes "peeringState") pm
      ++ bytes ")"

  unfoldable pub add_peer : Bytes → Map Bytes D.Any → BgpReport → BgpReport
  unfolding is_established down_peer
  add_peer node pm r =
      if is_established pm
      then record r { peers = r.peers + 1; established = r.established + 1 }
      else record r { peers = r.peers + 1; down = r.down ++ down_peer node pm ∷ [] }

  -- A peer or an instance that is no object is skipped.
  unfoldable pub add_peers : Bytes → List D.Any → BgpReport → BgpReport
  unfolding add_peer
  add_peers node [] r = r
  add_peers node (pr ∷ peers) r =
      add_peers node peers (elim (D.as_object pr) [ none ↦ r | some pm ↦ add_peer node pm r ])

  unfoldable pub add_instances : Bytes → List D.Any → BgpReport → BgpReport
  unfolding add_peers list_at
  add_instances node [] r = r
  add_instances node (inst ∷ instances) r = add_instances node instances (elim (D.as_object inst) [
    | none ↦ r
    | some im ↦ add_peers node (list_at (bytes "peers") im) r
  ])

  unfoldable pub add_nodes : List NodeConfig → BgpReport → BgpReport
  unfolding add_instances
  add_nodes [] r = r
  add_nodes (it ∷ items) r = add_nodes items (add_instances it.name it.bgp_instances r)

  unfoldable pub aspect_cilium_bgp : Option (List NodeConfig) → Option (Message BgpReport)
  unfolding add_nodes msg
  aspect_cilium_bgp none = none
  aspect_cilium_bgp (some items) =
      let r = add_nodes items (record { peers = 0; established = 0; down = [] }) in
      msg (bytes "cilium-bgp") (record r { down = sort_strings r.down })

  pub record PoolItem : Type 0 where
    pub name : Bytes
    -- spec.disabled and spec.blocks
    pub disabled : Bool
    pub blocks : List D.Any

  pub record Pool : Type 0 where
    pub name : Bytes
    pub disabled : Bool
    pub ranges : List Bytes

  -- start-stop, or start alone
  unfoldable pub range_from : Bytes → Bytes → Bytes
  range_from start stop =
      if not (stop == []) && not (stop == start) then start ++ bytes "-" ++ stop else start

  unfoldable pub block_ranges : Map Bytes D.Any → List Bytes
  unfolding string_at range_from
  block_ranges bm =
      let cidr = string_at (bytes "cidr") bm in
      let start = string_at (bytes "start") bm in
      if not (cidr == [])
      then cidr ∷ []
      else if not (start == [])
      then range_from start (string_at (bytes "stop") bm) ∷ []
      else []

  unfoldable pub pool_ranges : List D.Any → List Bytes
  unfolding block_ranges
  pool_ranges [] = []
  pool_ranges (b ∷ blocks) =
      let rest = pool_ranges blocks in
      elim (D.as_object b) [ none ↦ rest | some bm ↦ block_ranges bm ++ rest ]

  unfoldable pub pool_of : PoolItem → Pool
  unfolding pool_ranges
  pool_of it = record { name = it.name; disabled = it.disabled; ranges = pool_ranges it.blocks }

  pub record PoolsReport : Type 0 where
    pub count : ℕ
    pub pools : List Pool

  unfoldable pub aspect_cilium_lb_pools : Option (List PoolItem) → Option (Message PoolsReport)
  unfolding pool_of msg
  aspect_cilium_lb_pools none = none
  aspect_cilium_lb_pools (some items) =
      msg (bytes "cilium-lb-pools") (record { count = length items; pools = map pool_of items })
