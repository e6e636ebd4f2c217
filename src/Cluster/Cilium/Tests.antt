-- ===== src/Cluster/Cilium/Tests.antt =====
-- A node with an established peer and one that is down, and a pool with a range.
use pok.Cluster.Cilium.{Dynamic, NodeConfig, BgpReport, aspect_cilium_bgp, PoolItem}
use pok.Cluster.Cilium.Peers.{IsPartition, peers_of_nodes, aspect_cilium_bgp-IsPartition}
use pok.Cluster.Sorting.{IsSorted, less_bytes}
use pok.Prelude.Bytes.{Bytes, bytes}
use pok.Prelude.Maps.{Map}
use pok.Prelude.{◌≡◌, false, Option, none, some, List, [], ◌∷◌}

-- Strings, objects with string values, and lists of such objects.
data Value : Type 0 where
  text : Bytes → Value
  fields : Map Bytes Bytes → Value
  instance_of : List (Map Bytes Bytes) → Value

abbrev texts : Map Bytes Bytes → Map Bytes Value
texts [] = []
texts ((k, v) ∷ m) = (k, text v) ∷ texts m

abbrev peers_of : List (Map Bytes Bytes) → List Value
peers_of [] = []
peers_of (m ∷ ms) = fields m ∷ peers_of ms

abbrev text_in : Value → Option Bytes
text_in (text s) = some s
text_in (fields m) = none
text_in (instance_of ms) = none

abbrev object_in : Value → Option (Map Bytes Value)
object_in (text s) = none
object_in (fields m) = some (texts m)
object_in (instance_of ms) = some ((bytes "peers", instance_of ms) ∷ [])

abbrev list_in : Value → Option (List Value)
list_in (text s) = none
list_in (fields m) = none
list_in (instance_of ms) = some (peers_of ms)

abbrev values : Dynamic
values = record { Any = Value; as_string = text_in; as_object = object_in; as_list = list_in }

abbrev one_config : List (NodeConfig values)
one_config =
    record {
      name = bytes "n1";
      bgp_instances =
          instance_of (
            ((bytes "peeringState", bytes "established") ∷ [])
            ∷ ((bytes "peeringState", bytes "idle") ∷ [])
            ∷ [])
          ∷ text (bytes "odd")
          ∷ [];
    }
    ∷ []

aspect_cilium_bgp-IsPartition_example :
    (r : BgpReport values) × ((aspect_cilium_bgp values (some one_config)
        ≡ some (record { aspect = bytes "cilium-bgp"; value = r }))
      × IsPartition values (peers_of_nodes values one_config) r
      × IsSorted less_bytes r.down)
aspect_cilium_bgp-IsPartition_example = aspect_cilium_bgp-IsPartition values one_config

abbrev one_pool : List (PoolItem values)
one_pool =
    record {
      name = bytes "pool";
      disabled = false;
      blocks =
          fields ((bytes "start", bytes "10.0.0.1") ∷ (bytes "stop", bytes "10.0.0.9") ∷ []) ∷ [];
    }
    ∷ []
