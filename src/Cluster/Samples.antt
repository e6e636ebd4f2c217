-- ===== src/Cluster/Samples.antt =====
-- Inputs for the tests: libraries that do little, and an API that answers two listings.
use pok.Cluster.Cilium.{Dynamic}
use pok.Cluster.Metrics.{less_name, more_cpu}
use pok.Cluster.Poll.Calls.{Libraries, Api}
use pok.Cluster.Services.{less_ip}
use pok.Cluster.Sorting.{sort}
use pok.Cluster.Usage.{Quantity}
use pok.Cluster.Workloads.{more_restarts}
use pok.Prelude.Decimal.{read_digits}
use pok.Cost.Samples.{dollars}
use pok.Prelude.Bytes.{Bytes, bytes}
use pok.Prelude.{◌*◌, Option, none, some, List, [], ◌∷◌}

-- Stands for resource.ParseQuantity on whole numbers.
abbrev pub whole_quantity : Bytes → Option Quantity
whole_quantity [] = none
whole_quantity (c ∷ cs) =
    let n = read_digits 0 (c ∷ cs) in some (record { milli_value = n * 1000; whole = n })

abbrev pub texts : Dynamic
texts = record { Any = Bytes; as_string = λ b. some b; as_object = λ b. none; as_list = λ b. none }

abbrev pub libraries : Libraries
libraries = record {
  floats = dollars;
  dynamic = texts;
  parse_quantity = whole_quantity;
  sort_restarts = sort more_restarts;
  sort_vips = sort less_ip;
  sort_nodes = sort less_name;
  sort_pods = sort more_cpu;
}

-- Only the nodes and the namespaces are listed.
abbrev pub api_of : List Bytes → Api libraries
api_of names = record {
  node_list = some (record { name = bytes "n1"; conditions = [] } ∷ []);
  phases = none;
  namespace_names = some names;
  pod_list = none;
  statuses = none;
  deployment_list = none;
  service_list = none;
  claims = none;
  bgp_configs = none;
  endpoints = none;
  identities = none;
  cilium_node_names = none;
  pool_items = none;
  policies = none;
  clusterwide_policies = none;
  node_usages = none;
  pod_usages = none;
  go_version = bytes "go1";
  server_version = none;
  node_infos = none;
  image_pods = none;
}
