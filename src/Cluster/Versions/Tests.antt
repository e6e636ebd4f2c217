-- ===== src/Cluster/Versions/Tests.antt =====
-- An app whose image changes, and Strimzi's Kafka.
use pok.Cluster.Image.{split_image}
use pok.Cluster.Sorting.{sort, less_bytes, sort_strings}
use pok.Cluster.Text.{take, drop, index_byte, last_index_byte}
use pok.Cluster.Versions.Apps.{last_tag, aspect_versions-apps}
use pok.Cluster.Versions.Uniform.{of_arch, aspect_versions-uniform}
use pok.Cluster.Versions.{
  NodeInfo, ImagePod, Images, VersionsReport, is_app, aspect_versions, add_all_nodes, joined_sets,
}
use pok.Prelude.Bytes.{Bytes, bytes, bytes_beq, bytes_key}
use pok.Prelude.Lists.{contains}
use pok.Prelude.Maps.{lookup, insert, index}
use pok.Prelude.{◌≡◌, refl, none, some, List, [], ◌∷◌, ◌++◌}

abbrev pods : List ImagePod
pods =
    record { namespace = bytes "app-web"; images = bytes "reg/web:v1" ∷ bytes "reg/side" ∷ [] }
    ∷ record { namespace = bytes "app-web"; images = bytes "reg/web:v2" ∷ [] }
    ∷ []

aspect_versions-apps_example :
    (r : VersionsReport) × ((aspect_versions (bytes "go1") none (some []) (some pods)
        ≡ some (record { aspect = bytes "versions"; value = r }))
      × (lookup (bytes "web") r.apps ≡ last_tag (bytes "web") pods none))
aspect_versions-apps_example = aspect_versions-apps (bytes "go1") (bytes "web") none [] pods

latest : last_tag (bytes "web") pods none ≡ some (bytes "v2")
unfolding split_image take drop index_byte last_index_byte is_app bytes_beq
latest = refl

-- Two nodes that differ in the kernel alone.
abbrev node : Bytes → NodeInfo
node kernel = record {
  kubelet = bytes "v1";
  runtime = bytes "c2";
  os = bytes "u";
  kernel = kernel;
  arch = bytes "arm64";
}

kernels :
    lookup
      (bytes "kernel")
      (joined_sets (add_all_nodes (node (bytes "7") ∷ node (bytes "6") ∷ []) []))
    ≡ some (bytes "6, 7")
unfolding joined_sets add_all_nodes sort_strings sort less_bytes contains index insert lookup
    bytes_beq
kernels = refl

abbrev nothing_seen : Images
nothing_seen = record { platform = []; apps = [] }

abbrev strimzi : Bytes
strimzi = bytes "quay.io/strimzi/kafka:0.45.0-kafka-3.9.0"

strimzi-split :
    split_image strimzi ≡ (bytes "kafka", bytes "0.45.0" ++ bytes "-kafka-" ++ bytes "3.9.0")
unfolding split_image take drop index_byte last_index_byte
strimzi-split = refl

aspect_versions-uniform_example :
    (r : VersionsReport) × ((aspect_versions
          (bytes "go1")
          none
          (some (node (bytes "7") ∷ (node (bytes "6") ∷ [])))
          (some [])
        ≡ some (record { aspect = bytes "versions"; value = r }))
      × (index [] (bytes "arch") r.nodes ≡ bytes "arm64"))
aspect_versions-uniform_example =
    aspect_versions-uniform (bytes "go1") (bytes "arm64") none of_arch (node (bytes "7"))
      (node (bytes "6") ∷ []) [] (refl, (refl, tt))
