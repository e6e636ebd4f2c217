-- ===== src/Cluster.antt =====
-- The aspects of the cluster that apps/clusterinfo/main.go publishes.
pub mod Text
pub mod Sorting
pub mod Image
pub mod Workloads
pub mod Services
pub mod Usage
pub mod Metrics
pub mod Cilium
pub mod Versions
pub mod Poll
pub mod Samples
