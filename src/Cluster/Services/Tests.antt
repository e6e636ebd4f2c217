-- ===== src/Cluster/Services/Tests.antt =====
-- Three services, of which one is shown outside the cluster.
use pok.Cluster.Services.Counted.{count_vips, sum_counts, aspect_services-count}
use pok.Cluster.Services.{Service, Vip, ServicesReport, vips, less_ip, aspect_services}
use pok.Cluster.Sorting.{
  count, IsSorted, IsSorter, IsOrder, less_bytes, less_bytes-IsOrder, sort, sort-IsSorted,
  sort-IsRearranged,
}
use pok.Prelude.Bytes.{Bytes, bytes, bytes_beq, bytes_key}
use pok.Prelude.Lists.{length}
use pok.Prelude.Maps.{index}
use pok.Prelude.Tests.{◌==◌}
use pok.Prelude.{◌≡◌, refl, Bool, some, List, [], ◌∷◌}

abbrev services : List Service
services =
    record {
      namespace = bytes "a";
      name = bytes "x";
      service_type = bytes "ClusterIP";
      ingress = [];
    }
    ∷ record {
      namespace = bytes "a";
      name = bytes "edge";
      service_type = bytes "LoadBalancer";
      ingress = bytes "10.0.0.2" ∷ [] ∷ bytes "10.0.0.1" ∷ [];
    }
    ∷ record {
      namespace = bytes "b";
      name = bytes "y";
      service_type = bytes "ClusterIP";
      ingress = [];
    }
    ∷ []

edge_vips :
    vips services
    ≡ record { svc = bytes "a/edge"; ip = bytes "10.0.0.2" }
      ∷ record { svc = bytes "a/edge"; ip = bytes "10.0.0.1" }
      ∷ []
unfolding vips bytes_beq
edge_vips = refl

less_ip-IsOrder : IsOrder less_ip
unfolding less_ip
less_ip-IsOrder = record {
  asymmetric = λ x y. less_bytes-IsOrder.asymmetric x.ip y.ip;
  chained = λ x y z. less_bytes-IsOrder.chained x.ip y.ip z.ip;
}

sort-IsSorter : IsSorter less_ip (sort less_ip)
sort-IsSorter xs = (sort-IsSorted less_ip less_ip-IsOrder xs, sort-IsRearranged less_ip xs)

aspect_services-count_example :
    (r : ServicesReport) × ((aspect_services (sort less_ip) (some services)
        ≡ some (record { aspect = bytes "services"; value = r }))
      × (r.total ≡ length services)
      × ((k : Bytes) → index 0 k r.by_type ≡ count (λ s. s.service_type == k) services)
      × (sum_counts r.by_type ≡ r.total)
      × IsSorted (λ a b. less_bytes a.ip b.ip) r.loadbalancers
      × ((test : Vip → Bool) → count test r.loadbalancers ≡ count_vips test services))
aspect_services-count_example = aspect_services-count (sort less_ip) services sort-IsSorter
