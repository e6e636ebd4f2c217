-- ===== src/Cluster/Versions/Uniform.antt =====
-- What the versions report shows of a field in which the nodes agree.
use pok.Cluster.Sorting.{sort, sort_strings}
use pok.Cluster.Versions.{
  join, NodeInfo, add_version, add_node, add_all_nodes, joined_sets, ImagePod, add_pods,
  VersionsReport, aspect_versions,
}
use pok.Cluster.Workloads.{msg}
use pok.Prelude.Bytes.{Bytes, bytes, bytes_beq, bytes_key}
use pok.Prelude.Lists.{contains, All}
use pok.Prelude.Maps.{Map, index, index-insert}
use pok.Prelude.Tests.{◌==◌, if◌then◌else◌, eq_iff, eq_refl}
use pok.Prelude.{◌≡◌, refl, ap, ◌∙◌, Option, some, List, [], ◌∷◌, ◌++◌, arith}

-- The fields of a node's information that the aspect reads.
pub data Field : Type 0 where
  of_kubelet : Field
  of_runtime : Field
  of_os : Field
  of_kernel : Field
  of_arch : Field

abbrev pub name_of : Field → Bytes
name_of of_kubelet = bytes "kubelet"
name_of of_runtime = bytes "runtime"
name_of of_os = bytes "os"
name_of of_kernel = bytes "kernel"
name_of of_arch = bytes "arch"

abbrev pub value_of : Field → NodeInfo → Bytes
value_of of_kubelet ni = ni.kubelet
value_of of_runtime ni = ni.runtime
value_of of_os ni = ni.os
value_of of_kernel ni = ni.kernel
value_of of_arch ni = ni.arch

abbrev with_value : Bytes → List Bytes → List Bytes
with_value v set = if contains v set then set else set ++ v ∷ []

abbrev put : Bytes → Bytes → Bytes → List Bytes → List Bytes
put written v sought set = if written == sought then with_value v set else set

index-add_version :
    (written v sought : Bytes) (sets : Map Bytes (List Bytes))
    → index [] sought (add_version written v sets) ≡ put written v sought (index [] sought sets)
unfolding add_version
index-add_version written v sought sets = ground (
  arith,
  index-insert [] written sought (with_value v (index [] written sets)) sets,
  eq_iff written sought,
)

index-add_node :
    (f : Field) (ni : NodeInfo) (sets : Map Bytes (List Bytes))
    → index [] (name_of f) (add_node ni sets)
      ≡ put (bytes "arch") ni.arch (name_of f) (
          put (bytes "kernel") ni.kernel (name_of f) (
            put (bytes "os") ni.os (name_of f) (
              put
                (bytes "runtime")
                ni.runtime
                (name_of f)
                (put (bytes "kubelet") ni.kubelet (name_of f) (index [] (name_of f) sets)))))
unfolding add_node
index-add_node f ni sets =
    rw
      (
        index-add_version (bytes "arch") ni.arch (name_of f) _,
        index-add_version (bytes "kernel") ni.kernel (name_of f) _,
        index-add_version (bytes "os") ni.os (name_of f) _,
        index-add_version (bytes "runtime") ni.runtime (name_of f) _,
        index-add_version (bytes "kubelet") ni.kubelet (name_of f) sets,
      )
      refl

-- A node changes the set of a field by its value alone.
field-add_node :
    (f : Field) (ni : NodeInfo) (sets : Map Bytes (List Bytes))
    → index [] (name_of f) (add_node ni sets)
      ≡ with_value (value_of f ni) (index [] (name_of f) sets)
unfolding bytes_beq
field-add_node of_kubelet ni sets = index-add_node of_kubelet ni sets
field-add_node of_runtime ni sets = index-add_node of_runtime ni sets
field-add_node of_os ni sets = index-add_node of_os ni sets
field-add_node of_kernel ni sets = index-add_node of_kernel ni sets
field-add_node of_arch ni sets = index-add_node of_arch ni sets

with_value_again : (v : Bytes) → with_value v (v ∷ []) ≡ v ∷ []
unfolding contains
with_value_again v = ground (arith, eq_refl v)

module _ (f : Field) (v : Bytes) where
  field-add_all_nodes :
      (nodes : List NodeInfo) (sets : Map Bytes (List Bytes))
      → All (λ ni. value_of f ni ≡ v) nodes
      → index [] (name_of f) sets ≡ v ∷ []
      → index [] (name_of f) (add_all_nodes nodes sets) ≡ v ∷ []
  unfolding add_all_nodes
  field-add_all_nodes [] sets same h = h
  field-add_all_nodes (ni ∷ nodes) sets same h =
      field-add_all_nodes nodes (add_node ni sets) same.1
        (field-add_node f ni sets ∙ rw (same.0, h) (with_value_again v))

index-joined_sets :
    (k : Bytes) (sets : Map Bytes (List Bytes))
    → index [] k (joined_sets sets) ≡ join (sort_strings (index [] k sets))
unfolding joined_sets index
index-joined_sets k [] = unfold join sort_strings sort in refl
index-joined_sets k ((j, vs) ∷ sets) = ground (arith, index-joined_sets k sets)

join_alone : (v : Bytes) → join (sort_strings (v ∷ [])) ≡ v
unfolding join sort_strings sort
join_alone v = refl

field_first :
    (f : Field) (v : Bytes) (ni : NodeInfo)
    → value_of f ni ≡ v
    → index [] (name_of f) (add_node ni []) ≡ v ∷ []
field_first f v ni e =
    field-add_node f ni [] ∙ unfold index contains in ap (λ (u : Bytes). u ∷ []) e

field_alone :
    (f : Field) (v : Bytes) (ni : NodeInfo) (nodes : List NodeInfo)
    → All (λ n. value_of f n ≡ v) (ni ∷ nodes)
    → index [] (name_of f) (add_all_nodes (ni ∷ nodes) []) ≡ v ∷ []
unfolding add_all_nodes
field_alone f v ni nodes same =
    field-add_all_nodes f v nodes (add_node ni []) same.1 (field_first f v ni same.0)

-- If there is a node, and all nodes have the same value in a field, then the versions report shows
-- that value for it, once.
pub aspect_versions-uniform :
    (go v : Bytes) (server : Option Bytes) (f : Field) (ni : NodeInfo) (nodes : List NodeInfo)
    (pods : List ImagePod)
    → All (λ n. value_of f n ≡ v) (ni ∷ nodes)
    → (r : VersionsReport) × ((aspect_versions go server (some (ni ∷ nodes)) (some pods)
          ≡ some (record { aspect = bytes "versions"; value = r }))
        × (index [] (name_of f) r.nodes ≡ v))
unfolding aspect_versions msg
aspect_versions-uniform go v server f ni nodes pods same =
    let seen = add_pods pods (record { platform = []; apps = [] }) in
    (
      record {
        go = go;
        kubernetes = server;
        nodes = joined_sets (add_all_nodes (ni ∷ nodes) []);
        platform = seen.platform;
        apps = seen.apps;
      },
      (
        refl,
        index-joined_sets (name_of f) (add_all_nodes (ni ∷ nodes) [])
            ∙ rw (field_alone f v ni nodes same) (join_alone v),
      ),
    )
