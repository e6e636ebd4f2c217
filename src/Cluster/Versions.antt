-- ===== src/Cluster/Versions.antt =====
-- The versions aspect: `aspectVersions` of apps/clusterinfo/main.go. A map used as a set is the list of
-- its keys; it is sorted before it shows.
pub mod Apps
pub mod Kafka
pub mod Uniform
mod Tests
use pok.Cluster.Image.{split_image}
use pok.Cluster.Sorting.{sort_strings}
use pok.Cluster.Text.{take, drop, index_byte}
use pok.Cluster.Workloads.{Message, msg}
use pok.Prelude.Bytes.{Bytes, bytes, bytes_key}
use pok.Prelude.Lists.{length, contains}
use pok.Prelude.Maps.{Map, index, insert}
use pok.Prelude.Tests.{◌==◌, nat_beq, if◌then◌else◌}
use pok.Prelude.{
  ℕ, suc, ◌+◌, Bool, true, false, ◌&&◌, ◌||◌, Option, none, some, List, [], ◌∷◌, ◌++◌,
}

-- strings.HasPrefix(s, prefix)
unfoldable pub has_prefix : Bytes → Bytes → Bool
has_prefix s [] = true
has_prefix [] (d ∷ prefix) = false
has_prefix (c ∷ s) (d ∷ prefix) = nat_beq c d && has_prefix s prefix

-- strings.Index(s, sub), `none` for -1
unfoldable pub index_of : Bytes → Bytes → Option ℕ
unfolding has_prefix
index_of sub [] = if sub == [] then some 0 else none
index_of sub (c ∷ s) =
    let rest = index_of sub s in
    if has_prefix (c ∷ s) sub then some 0 else (elim rest [ none ↦ none | some i ↦ some (suc i) ])

abbrev is_found : Option ℕ → Bool
is_found none = false
is_found (some i) = true

-- strings.SplitN(s, "-", 2)[0]
unfoldable pub before_dash : Bytes → Bytes
before_dash s = elim (index_byte 45 s) [ none ↦ s | some i ↦ take i s ]

-- strings.Join(l, ", ")
unfoldable pub join : List Bytes → Bytes
join [] = []
join (s ∷ []) = s
join (s ∷ (t ∷ l)) = s ++ bytes ", " ++ join (t ∷ l)

pub record NodeInfo : Type 0 where
  pub kubelet : Bytes
  pub runtime : Bytes
  pub os : Bytes
  pub kernel : Bytes
  pub arch : Bytes

-- sets[k][v] = struct{}{}
unfoldable pub add_version : Bytes → Bytes → Map Bytes (List Bytes) → Map Bytes (List Bytes)
add_version k v sets =
    let set = index [] k sets in insert k (if contains v set then set else set ++ v ∷ []) sets

unfoldable pub add_node : NodeInfo → Map Bytes (List Bytes) → Map Bytes (List Bytes)
unfolding add_version
add_node ni sets = add_version (bytes "arch") ni.arch (
    add_version (bytes "kernel") ni.kernel (
      add_version (bytes "os") ni.os
        (add_version (bytes "runtime") ni.runtime (add_version (bytes "kubelet") ni.kubelet sets))))

unfoldable pub add_all_nodes : List NodeInfo → Map Bytes (List Bytes) → Map Bytes (List Bytes)
unfolding add_node
add_all_nodes [] sets = sets
add_all_nodes (ni ∷ nodes) sets = add_all_nodes nodes (add_node ni sets)

-- nodes[k] = strings.Join(l, ", ") for each set
unfoldable pub joined_sets : Map Bytes (List Bytes) → Map Bytes Bytes
unfolding join
joined_sets [] = []
joined_sets ((k, vs) ∷ sets) = (k, join (sort_strings vs)) ∷ joined_sets sets

pub record ImagePod : Type 0 where
  pub namespace : Bytes
  -- the image of each container
  pub images : List Bytes

pub record Images : Type 0 where
  pub platform : Map Bytes Bytes
  pub apps : Map Bytes Bytes

unfoldable pub is_app : Bytes → Bool
unfolding has_prefix
is_app namespace = has_prefix namespace (bytes "app-") || namespace == bytes "aws-cost"

-- The cases of the switch for the platform's images, in their order.
unfoldable pub add_platform : Bytes → Bytes → Bytes → Map Bytes Bytes → Map Bytes Bytes
unfolding index_of before_dash
add_platform image name tag platform =
    let cut = index_of (bytes "-kafka-") tag in
    let plain =
      if name == bytes "operator" && is_found (index_of (bytes "strimzi") image)
      then insert (bytes "strimzi") tag platform
      else if name == bytes "cilium"
      then insert (bytes "cilium") tag platform
      else if name == bytes "operator-generic"
      then insert (bytes "cilium-operator") tag platform
      else if name == bytes "cilium-envoy"
      then insert (bytes "cilium-envoy") (before_dash tag) platform
      else if name == bytes "topolvm-with-sidecar"
      then insert (bytes "topolvm") tag platform
      else if name == bytes "metrics-server"
      then insert (bytes "metrics-server") tag platform
      else if has_prefix name (bytes "opentelemetry-collector")
      then insert (bytes "otel-collector") tag platform
      else if name == bytes "registry"
      then insert (bytes "registry") tag platform
      else if name == bytes "coredns" || name == bytes "etcd"
      then insert name tag platform
      else platform in
    if name == bytes "kafka"
    then elim cut [
      | none ↦ plain
      | some i ↦
          insert (bytes "kafka") (drop (i + 7) tag) (insert (bytes "strimzi") (take i tag) platform)
    ]
    else plain

-- An image without a tag is passed over.
unfoldable pub add_image : Bytes → Bytes → Images → Images
unfolding is_app
add_image namespace image seen =
    let (name, tag) = split_image image in
    if tag == []
    then seen
    else if is_app namespace
    then record seen { apps = insert name tag seen.apps }
    else record seen { platform = add_platform image name tag seen.platform }

unfoldable pub add_images : Bytes → List Bytes → Images → Images
unfolding add_image
add_images namespace [] seen = seen
add_images namespace (image ∷ images) seen =
    add_images namespace images (add_image namespace image seen)

unfoldable pub add_pods : List ImagePod → Images → Images
unfolding add_images
add_pods [] seen = seen
add_pods (p ∷ pods) seen = add_pods pods (add_images p.namespace p.images seen)

pub record VersionsReport : Type 0 where
  pub go : Bytes
  -- absent where the API server's version is not told
  pub kubernetes : Option Bytes
  pub nodes : Map Bytes Bytes
  pub platform : Map Bytes Bytes
  pub apps : Map Bytes Bytes

-- `go` is runtime.Version().
unfoldable pub aspect_versions :
    Bytes
    → Option Bytes
    → Option (List NodeInfo)
    → Option (List ImagePod)
    → Option (Message VersionsReport)
unfolding add_pods add_all_nodes joined_sets msg
aspect_versions go server none pods = none
aspect_versions go server (some nodes) none = none
aspect_versions go server (some nodes) (some pods) =
    let seen = add_pods pods (record { platform = []; apps = [] }) in
    msg (bytes "versions") (record {
      go = go;
      kubernetes = server;
      nodes = joined_sets (add_all_nodes nodes []);
      platform = seen.platform;
      apps = seen.apps;
    })
