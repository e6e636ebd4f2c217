-- ===== src/Cluster/Services/Counted.antt =====
-- The services by type, and the addresses of the load balancers.
use pok.Cluster.Services.{Service, Vip, ServicesReport, vips_of, vips, less_ip, aspect_services}
use pok.Cluster.Sorting.{less_bytes, count, count-append, IsSorted, IsSorter}
use pok.Cluster.Workloads.Tallied.{index-tally}
use pok.Cluster.Workloads.{msg, qualified, tally}
use pok.Prelude.Bytes.{Bytes, bytes, bytes_key}
use pok.Prelude.Lists.{length, length-map}
use pok.Prelude.Maps.{Map, index, insert}
use pok.Prelude.Tests.{◌==◌, if◌then◌else◌}
use pok.Prelude.{ℕ, ◌+◌, ◌≡◌, ◌∙◌, refl, Bool, ◌&&◌, not, some, List, [], ◌∷◌, map, arith}

-- The addresses that pass a test: those which a service of type LoadBalancer was given.
abbrev pub count_vips : (Vip → Bool) → List Service → ℕ
count_vips test [] = 0
count_vips test (s ∷ services) =
    (if s.service_type == bytes "LoadBalancer"
      then count
          (λ ip. not (ip == []) && test (record { svc = qualified s.namespace s.name; ip = ip }))
          s.ingress
      else 0)
    + count_vips test services

count-vips_of :
    (test : Vip → Bool) (svc : Bytes) (ingress : List Bytes)
    → count test (vips_of svc ingress)
      ≡ count (λ ip. not (ip == []) && test (record { svc = svc; ip = ip })) ingress
unfolding vips_of
count-vips_of test svc [] = refl
count-vips_of test svc (ip ∷ ingress) = ground (arith, count-vips_of test svc ingress)

count-vips :
    (test : Vip → Bool) (services : List Service)
    → count test (vips services) ≡ count_vips test services
unfolding vips
count-vips test [] = refl
count-vips test (s ∷ services) = ground (
  arith,
  count-append test (vips_of (qualified s.namespace s.name) s.ingress) (vips services),
  count-vips_of test (qualified s.namespace s.name) s.ingress,
  count-vips test services,
)

-- The sum of a map's counts.
abbrev pub sum_counts : Map Bytes ℕ → ℕ
sum_counts [] = 0
sum_counts ((k, n) ∷ counts) = n + sum_counts counts

sum_counts-insert :
    (k : Bytes) (n : ℕ) (counts : Map Bytes ℕ)
    → sum_counts (insert k n counts) + index 0 k counts ≡ sum_counts counts + n
unfolding insert index
sum_counts-insert k n [] = omega arith
sum_counts-insert k n ((j, m) ∷ counts) = ground (arith, sum_counts-insert k n counts)

sum_counts-tally :
    (ks : List Bytes) (counts : Map Bytes ℕ)
    → sum_counts (tally ks counts) ≡ sum_counts counts + length ks
unfolding tally
sum_counts-tally [] counts = omega arith
sum_counts-tally (k ∷ ks) counts = omega (
  arith,
  sum_counts-tally ks (insert k (index 0 k counts + 1) counts),
  sum_counts-insert k (index 0 k counts + 1) counts,
)

count-map :
    {A : Type 0} (f : A → Bytes) (k : Bytes) (xs : List A)
    → count (λ j. j == k) (map f xs) ≡ count (λ x. f x == k) xs
count-map f k [] = refl
count-map f k (x ∷ xs) = ground (arith, count-map f k xs)

-- The services report counts the services of each type, which together are all services. It lists,
-- in order, each address that a service of type LoadBalancer was given, beside that service's name,
-- and nothing else.
pub aspect_services-count :
    (sort_slice : List Vip → List Vip) (services : List Service)
    → IsSorter less_ip sort_slice
    → (r : ServicesReport) × ((aspect_services sort_slice (some services)
          ≡ some (record { aspect = bytes "services"; value = r }))
        × (r.total ≡ length services)
        × ((k : Bytes) → index 0 k r.by_type ≡ count (λ s. s.service_type == k) services)
        × (sum_counts r.by_type ≡ r.total)
        × IsSorted (λ a b. less_bytes a.ip b.ip) r.loadbalancers
        × ((test : Vip → Bool) → count test r.loadbalancers ≡ count_vips test services))
unfolding aspect_services less_ip msg
aspect_services-count sort_slice services sorter =
    let types = map (λ (s : Service). s.service_type) services in
    (
      record {
        total = length services;
        by_type = tally types [];
        loadbalancers = sort_slice (vips services);
      },
      (
        refl,
        refl,
        λ k.
            unfold index in
            omega (
              arith,
              index-tally k types [],
              count-map (λ (s : Service). s.service_type) k services,
            ),
        omega (
          arith,
          sum_counts-tally types [],
          length-map (λ (s : Service). s.service_type) services,
        ),
        (sorter (vips services)).0,
        λ test. (sorter (vips services)).1 test ∙ count-vips test services,
      ),
    )
