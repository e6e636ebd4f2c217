-- ===== src/Cluster/Services.antt =====
-- `aspectServices` of apps/clusterinfo/main.go.
pub mod Counted
mod Tests
use pok.Cluster.Workloads.{Message, msg, qualified, tally}
use pok.Cluster.Sorting.{less_bytes}
use pok.Prelude.Bytes.{Bytes, bytes, bytes_key}
use pok.Prelude.Lists.{length}
use pok.Prelude.Maps.{Map}
use pok.Prelude.Tests.{◌==◌, if◌then◌else◌}
use pok.Prelude.{ℕ, Bool, Option, none, some, List, [], ◌∷◌, ◌++◌, map}

pub record Service : Type 0 where
  pub namespace : Bytes
  pub name : Bytes
  pub service_type : Bytes
  -- the IP of each ingress of the load balancer's status
  pub ingress : List Bytes

pub record Vip : Type 0 where
  pub svc : Bytes
  pub ip : Bytes

pub record ServicesReport : Type 0 where
  pub total : ℕ
  pub by_type : Map Bytes ℕ
  pub loadbalancers : List Vip

unfoldable pub vips_of : Bytes → List Bytes → List Vip
vips_of svc [] = []
vips_of svc (ip ∷ ingress) =
    let rest = vips_of svc ingress in
    if ip == [] then rest else record { svc = svc; ip = ip } ∷ rest

unfoldable pub vips : List Service → List Vip
unfolding vips_of qualified
vips [] = []
vips (s ∷ services) =
    let rest = vips services in
    if s.service_type == bytes "LoadBalancer"
    then vips_of (qualified s.namespace s.name) s.ingress ++ rest
    else rest

unfoldable pub less_ip : Vip → Vip → Bool
unfolding less_bytes
less_ip a b = less_bytes a.ip b.ip

-- `sort_slice` is `sort.Slice` by `less_ip`.
unfoldable pub aspect_services :
    (List Vip → List Vip) → Option (List Service) → Option (Message ServicesReport)
unfolding tally vips msg
aspect_services sort_slice none = none
aspect_services sort_slice (some services) = msg (bytes "services") (record {
  total = length services;
  by_type = tally (map (λ s. s.service_type) services) [];
  loadbalancers = sort_slice (vips services);
})
