-- ===== src/Cluster/Poll/Calls.antt =====
-- The aspects' functions, as the list `aspects` of apps/clusterinfo/main.go names them.
use pok.Cluster.Cilium.{
  Dynamic, NodeConfig, BgpReport, PoolItem, PoolsReport, PoliciesReport, aspect_count,
  aspect_cilium_nodes, aspect_cilium_policies, aspect_cilium_bgp, aspect_cilium_lb_pools,
}
use pok.Cluster.Metrics.{
  Metric, NodeUsage, PodUsage, NodeMetricsReport, aspect_node_metrics, aspect_pod_metrics,
}
use pok.Cluster.Poll.Aspects
use pok.Cluster.Poll.Aspects.{Aspect}
use pok.Cluster.Services.{Service, Vip, ServicesReport, aspect_services}
use pok.Cluster.Usage.{
  Quantity, NodeStatus, CapacityReport, Claim, ClaimsReport, aspect_capacity, aspect_pvcs,
}
use pok.Cluster.Versions.{NodeInfo, ImagePod, VersionsReport, aspect_versions}
use pok.Cluster.Workloads.{
  Message, Node, NodesReport, PodsReport, NamesReport, Pod, PodRestarts, RestartsReport, Deployment,
  DeploymentsReport, aspect_nodes, aspect_pods, aspect_namespaces, aspect_restarts,
  aspect_deployments,
}
use pok.Prelude.Bytes.{Bytes, bytes}
use pok.Prelude.Floats.{Floats}
use pok.Prelude.{ℕ, Option, none, some, List}

-- What the program takes from other code: float64, `any`, quantities, and one sort for each use of
-- `sort.Slice`.
pub record Libraries : Type 1 where
  pub floats : Floats
  pub dynamic : Dynamic
  pub parse_quantity : Bytes → Option Quantity
  pub sort_restarts : List PodRestarts → List PodRestarts
  pub sort_vips : List Vip → List Vip
  pub sort_nodes : List Metric → List Metric
  pub sort_pods : List Metric → List Metric

module _ (libs : Libraries) where
  open libs use {floats, dynamic, parse_quantity}

  -- What each listing returns, as the aspect reads it; `none` is an error.
  pub record Api : Type 0 where
    pub node_list : Option (List Node)
    pub phases : Option (List Bytes)
    pub namespace_names : Option (List Bytes)
    pub pod_list : Option (List Pod)
    pub statuses : Option (List NodeStatus)
    pub deployment_list : Option (List Deployment)
    pub service_list : Option (List Service)
    pub claims : Option (List (Claim floats))
    pub bgp_configs : Option (List (NodeConfig dynamic))
    pub endpoints : Option (List Bytes)
    pub identities : Option (List Bytes)
    pub cilium_node_names : Option (List Bytes)
    pub pool_items : Option (List (PoolItem dynamic))
    pub policies : Option (List Bytes)
    pub clusterwide_policies : Option (List Bytes)
    pub node_usages : Option (List NodeUsage)
    pub pod_usages : Option (List PodUsage)
    pub go_version : Bytes
    pub server_version : Option Bytes
    pub node_infos : Option (List NodeInfo)
    pub image_pods : Option (List ImagePod)

  pub data Report : Type 0 where
    of_nodes : NodesReport → Report
    of_pods : PodsReport → Report
    of_names : NamesReport → Report
    of_restarts : RestartsReport → Report
    of_capacity : CapacityReport floats → Report
    of_deployments : DeploymentsReport → Report
    of_services : ServicesReport → Report
    of_claims : ClaimsReport floats → Report
    of_bgp : BgpReport dynamic → Report
    of_count : ℕ → Report
    of_pools : PoolsReport dynamic → Report
    of_policies : PoliciesReport → Report
    of_node_metrics : NodeMetricsReport → Report
    of_pod_metrics : List Metric → Report
    of_versions : VersionsReport → Report

  abbrev pub as_report : {A : Type 0} → (A → Report) → Option (Message A) → Option (Message Report)
  as_report wrap none = none
  as_report wrap (some m) = some (record { aspect = m.aspect; value = wrap m.value })

  unfoldable pub call : Aspect → Api → Option (Message Report)
  call Aspects.nodes api = as_report of_nodes (aspect_nodes api.node_list)
  call Aspects.pods api = as_report of_pods (aspect_pods api.phases)
  call Aspects.namespaces api = as_report of_names (aspect_namespaces api.namespace_names)
  call Aspects.restarts api =
      as_report of_restarts (aspect_restarts libs.sort_restarts api.pod_list)
  call Aspects.capacity api = as_report of_capacity (aspect_capacity floats api.statuses)
  call Aspects.deployments api = as_report of_deployments (aspect_deployments api.deployment_list)
  call Aspects.services api =
      as_report of_services (aspect_services libs.sort_vips api.service_list)
  call Aspects.pvcs api = as_report of_claims (aspect_pvcs floats api.claims)
  call Aspects.cilium_bgp api = as_report of_bgp (aspect_cilium_bgp dynamic api.bgp_configs)
  call Aspects.cilium_endpoints api =
      as_report of_count (aspect_count (bytes "cilium-endpoints") api.endpoints)
  call Aspects.cilium_identities api =
      as_report of_count (aspect_count (bytes "cilium-identities") api.identities)
  call Aspects.cilium_nodes api = as_report of_names (aspect_cilium_nodes api.cilium_node_names)
  call Aspects.cilium_lb_pools api =
      as_report of_pools (aspect_cilium_lb_pools dynamic api.pool_items)
  call Aspects.cilium_policies api =
      as_report of_policies (aspect_cilium_policies api.policies api.clusterwide_policies)
  call Aspects.node_metrics api =
      as_report of_node_metrics (aspect_node_metrics parse_quantity libs.sort_nodes api.node_usages)
  call Aspects.pod_metrics api =
      as_report of_pod_metrics (aspect_pod_metrics parse_quantity libs.sort_pods api.pod_usages)
  call Aspects.versions api =
      as_report of_versions
        (aspect_versions api.go_version api.server_version api.node_infos api.image_pods)
