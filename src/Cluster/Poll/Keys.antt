-- ===== src/Cluster/Poll/Keys.antt =====
-- Each aspect publishes under a key of its own.
use pok.Cluster.Cilium.{
  aspect_count, aspect_cilium_nodes, aspect_cilium_policies, aspect_cilium_bgp,
  aspect_cilium_lb_pools,
}
use pok.Cluster.Metrics.{aspect_node_metrics, aspect_pod_metrics}
use pok.Cluster.Poll.Aspects
use pok.Cluster.Poll.Aspects.{Aspect}
use pok.Cluster.Poll.Calls.{
  Libraries, Api, Report, call, as_report, of_nodes, of_pods, of_names, of_restarts, of_capacity,
  of_deployments, of_services, of_claims, of_bgp, of_count, of_pools, of_policies, of_node_metrics,
  of_pod_metrics, of_versions,
}
use pok.Cluster.Services.{aspect_services}
use pok.Cluster.Usage.{aspect_capacity, aspect_pvcs}
use pok.Cluster.Versions.{NodeInfo, ImagePod, aspect_versions}
use pok.Cluster.Workloads.{
  Message, msg, aspect_nodes, aspect_pods, aspect_namespaces, aspect_restarts, aspect_deployments,
}
use pok.Prelude.Bytes.{Bytes, bytes, bytes_beq, bytes_key}
use pok.Prelude.Tests.{◌==◌, if◌then◌else◌}
use pok.Prelude.{◌≡◌, ◌≢◌, ◌∙◌, sym, ap, refl, Option, none, some, List, [], ◌∷◌}

abbrev pub key_of : Aspect → Bytes
key_of Aspects.nodes = bytes "nodes"
key_of Aspects.pods = bytes "pods"
key_of Aspects.namespaces = bytes "namespaces"
key_of Aspects.restarts = bytes "restarts"
key_of Aspects.capacity = bytes "capacity"
key_of Aspects.deployments = bytes "deployments"
key_of Aspects.services = bytes "services"
key_of Aspects.pvcs = bytes "pvcs"
key_of Aspects.cilium_bgp = bytes "cilium-bgp"
key_of Aspects.cilium_endpoints = bytes "cilium-endpoints"
key_of Aspects.cilium_identities = bytes "cilium-identities"
key_of Aspects.cilium_nodes = bytes "cilium-nodes"
key_of Aspects.cilium_lb_pools = bytes "cilium-lb-pools"
key_of Aspects.cilium_policies = bytes "cilium-policies"
key_of Aspects.node_metrics = bytes "node-metrics"
key_of Aspects.pod_metrics = bytes "pod-metrics"
key_of Aspects.versions = bytes "versions"

-- The aspect of a list with a key.
find_key : Bytes → List Aspect → Option Aspect
find_key k [] = none
find_key k (a ∷ rest) = if key_of a == k then some a else find_key k rest

find_key-key_of : (a : Aspect) → find_key (key_of a) Aspects.aspects ≡ some a
unfolding find_key bytes_beq
find_key-key_of Aspects.nodes = refl
find_key-key_of Aspects.pods = refl
find_key-key_of Aspects.namespaces = refl
find_key-key_of Aspects.restarts = refl
find_key-key_of Aspects.capacity = refl
find_key-key_of Aspects.deployments = refl
find_key-key_of Aspects.services = refl
find_key-key_of Aspects.pvcs = refl
find_key-key_of Aspects.cilium_bgp = refl
find_key-key_of Aspects.cilium_endpoints = refl
find_key-key_of Aspects.cilium_identities = refl
find_key-key_of Aspects.cilium_nodes = refl
find_key-key_of Aspects.cilium_lb_pools = refl
find_key-key_of Aspects.cilium_policies = refl
find_key-key_of Aspects.node_metrics = refl
find_key-key_of Aspects.pod_metrics = refl
find_key-key_of Aspects.versions = refl

some_eq : {A : Type 0} {a b : A} → some a ≡ some b → a ≡ b
some_eq p = cc

pub key_of-injective : (a b : Aspect) → key_of a ≡ key_of b → a ≡ b
key_of-injective a b p =
    some_eq (sym (find_key-key_of a) ∙ ap (λ k. find_key k Aspects.aspects) p ∙ find_key-key_of b)

-- wsfeed shows an empty key as "unknown", which is no aspect's key.
pub key_of-ne-unknown : (a : Aspect) → key_of a ≢ bytes "unknown"
key_of-ne-unknown a p =
    none_ne_some (ap (λ k. find_key k Aspects.aspects) (sym p) ∙ find_key-key_of a)
  where
    none_ne_some : find_key (bytes "unknown") Aspects.aspects ≡ some a → ⊥
    none_ne_some q = unfold find_key bytes_beq in cc

pub key_of-ne-nil : (a : Aspect) → key_of a ≢ []
key_of-ne-nil a p = none_ne_some (ap (λ k. find_key k Aspects.aspects) (sym p) ∙ find_key-key_of a)
  where
    none_ne_some : find_key [] Aspects.aspects ≡ some a → ⊥
    none_ne_some q = unfold find_key bytes_beq in cc

-- A message, if there is one, has this key.
abbrev pub HasKey : {A : Type 0} → Bytes → Option (Message A) → Type 0
HasKey k none = Unit
HasKey k (some m) = m.aspect ≡ k

policies-HasKey :
    (cnp : List Bytes) (ccnp : Option (List Bytes))
    → HasKey (bytes "cilium-policies") (aspect_cilium_policies (some cnp) ccnp)
unfolding aspect_cilium_policies msg
policies-HasKey cnp none = tt
policies-HasKey cnp (some ccnp) = refl

versions-HasKey :
    (go : Bytes) (server : Option Bytes) (infos : List NodeInfo) (images : Option (List ImagePod))
    → HasKey (bytes "versions") (aspect_versions go server (some infos) images)
unfolding aspect_versions msg
versions-HasKey go server infos none = tt
versions-HasKey go server infos (some images) = refl

module _ (libs : Libraries) where
  as_report-HasKey :
      {A : Type 0} (wrap : A → Report libs) (k : Bytes) (o : Option (Message A))
      → HasKey k o
      → HasKey k (as_report libs wrap o)
  as_report-HasKey wrap k none h = tt
  as_report-HasKey wrap k (some m) h = h

  -- The answer to one listing.
  listed-HasKey :
      {A B : Type 0} (wrap : B → Report libs) (k : Bytes) (f : Option A → Option (Message B))
      → HasKey k (f none)
      → ((a : A) → HasKey k (f (some a)))
      → (o : Option A) → HasKey k (as_report libs wrap (f o))
  listed-HasKey wrap k f hn hs none = as_report-HasKey wrap k (f none) hn
  listed-HasKey wrap k f hn hs (some a) = as_report-HasKey wrap k (f (some a)) (hs a)

  -- What an aspect publishes stands under the aspect's key.
  pub call-HasKey : (a : Aspect) (api : Api libs) → HasKey (key_of a) (call libs a api)
  unfolding call msg
  call-HasKey Aspects.nodes api =
      listed-HasKey of_nodes (key_of Aspects.nodes) aspect_nodes (unfold aspect_nodes in tt)
        (λ x. unfold aspect_nodes in refl) api.node_list
  call-HasKey Aspects.pods api =
      listed-HasKey of_pods (key_of Aspects.pods) aspect_pods (unfold aspect_pods in tt)
        (λ x. unfold aspect_pods in refl) api.phases
  call-HasKey Aspects.namespaces api =
      listed-HasKey of_names (key_of Aspects.namespaces) aspect_namespaces
        (unfold aspect_namespaces in tt) (λ x. unfold aspect_namespaces in refl) api.namespace_names
  call-HasKey Aspects.restarts api =
      listed-HasKey of_restarts (key_of Aspects.restarts) (aspect_restarts libs.sort_restarts)
        (unfold aspect_restarts in tt) (λ x. unfold aspect_restarts in refl) api.pod_list
  call-HasKey Aspects.capacity api =
      listed-HasKey of_capacity (key_of Aspects.capacity) (aspect_capacity libs.floats)
        (unfold aspect_capacity in tt) (λ x. unfold aspect_capacity in refl) api.statuses
  call-HasKey Aspects.deployments api =
      listed-HasKey of_deployments (key_of Aspects.deployments) aspect_deployments
        (unfold aspect_deployments in tt) (λ x. unfold aspect_deployments in refl)
        api.deployment_list
  call-HasKey Aspects.services api =
      listed-HasKey of_services (key_of Aspects.services) (aspect_services libs.sort_vips)
        (unfold aspect_services in tt) (λ x. unfold aspect_services in refl) api.service_list
  call-HasKey Aspects.pvcs api =
      listed-HasKey of_claims (key_of Aspects.pvcs) (aspect_pvcs libs.floats)
        (unfold aspect_pvcs in tt) (λ x. unfold aspect_pvcs in refl) api.claims
  call-HasKey Aspects.cilium_bgp api =
      listed-HasKey of_bgp (key_of Aspects.cilium_bgp) (aspect_cilium_bgp libs.dynamic)
        (unfold aspect_cilium_bgp in tt) (λ x. unfold aspect_cilium_bgp in refl) api.bgp_configs
  call-HasKey Aspects.cilium_endpoints api =
      listed-HasKey of_count (key_of Aspects.cilium_endpoints)
        (aspect_count {A = Bytes} (bytes "cilium-endpoints")) (unfold aspect_count in tt)
        (λ x. unfold aspect_count in refl) api.endpoints
  call-HasKey Aspects.cilium_identities api =
      listed-HasKey of_count (key_of Aspects.cilium_identities)
        (aspect_count {A = Bytes} (bytes "cilium-identities")) (unfold aspect_count in tt)
        (λ x. unfold aspect_count in refl) api.identities
  call-HasKey Aspects.cilium_nodes api =
      listed-HasKey of_names (key_of Aspects.cilium_nodes) aspect_cilium_nodes
        (unfold aspect_cilium_nodes in tt) (λ x. unfold aspect_cilium_nodes in refl)
        api.cilium_node_names
  call-HasKey Aspects.cilium_lb_pools api =
      listed-HasKey of_pools (key_of Aspects.cilium_lb_pools) (aspect_cilium_lb_pools libs.dynamic)
        (unfold aspect_cilium_lb_pools in tt) (λ x. unfold aspect_cilium_lb_pools in refl)
        api.pool_items
  call-HasKey Aspects.cilium_policies api =
      listed-HasKey of_policies (key_of Aspects.cilium_policies)
        (λ x. aspect_cilium_policies x api.clusterwide_policies)
        (unfold aspect_cilium_policies in tt) (λ x. policies-HasKey x api.clusterwide_policies)
        api.policies
  call-HasKey Aspects.node_metrics api =
      listed-HasKey of_node_metrics (key_of Aspects.node_metrics)
        (aspect_node_metrics libs.parse_quantity libs.sort_nodes) (unfold aspect_node_metrics in tt)
        (λ x. unfold aspect_node_metrics in refl) api.node_usages
  call-HasKey Aspects.pod_metrics api =
      listed-HasKey of_pod_metrics (key_of Aspects.pod_metrics)
        (aspect_pod_metrics libs.parse_quantity libs.sort_pods) (unfold aspect_pod_metrics in tt)
        (λ x. unfold aspect_pod_metrics in refl) api.pod_usages
  call-HasKey Aspects.versions api =
      listed-HasKey of_versions (key_of Aspects.versions)
        (λ x. aspect_versions api.go_version api.server_version x api.image_pods)
        (unfold aspect_versions in tt)
        (λ x. versions-HasKey api.go_version api.server_version x api.image_pods) api.node_infos
