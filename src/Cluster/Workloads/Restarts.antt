-- ===== src/Cluster/Workloads/Restarts.antt =====
-- The pods that restarted most, and how often all did.
use pok.Cluster.Sorting.{count, IsSorter}
use pok.Cluster.Workloads.Top.{IsTop, left_out, at_most-IsTop, IsTop-other}
use pok.Cluster.Workloads.{
  msg, qualified, Pod, PodRestarts, RestartsReport, add_int32, less_int32, extend, sum_int32,
  total_restarts, offenders, more_restarts, at_most, aspect_restarts,
}
use pok.Prelude.Bytes.{bytes}
use pok.Prelude.Tests.{ltb, leb, if◌then◌else◌}
use pok.Prelude.{ℕ, ◌+◌, ◌%◌, ◌^◌, ◌<◌, ◌≡◌, refl, Bool, false, some, List, [], ◌∷◌, ◌++◌, arith}

-- The restarts of all containers, without wrapping.
abbrev pub all_counts : List ℕ → ℕ
all_counts [] = 0
all_counts (c ∷ counts) = c + all_counts counts

abbrev pub all_restarts : List Pod → ℕ
all_restarts [] = 0
all_restarts (p ∷ pods) = all_counts p.restart_counts + all_restarts pods

sum_int32-all_counts :
    (r : ℕ) (counts : List ℕ)
    → r + all_counts counts < 2 ^ 32
    → sum_int32 r counts ≡ r + all_counts counts
unfolding sum_int32 add_int32
sum_int32-all_counts r [] h = omega arith
sum_int32-all_counts r (c ∷ counts) h =
    omega (arith, sum_int32-all_counts (add_int32 r c) counts (omega arith))

next_total : (total r x : ℕ) → x ≡ r → total + r < 2 ^ 31 → (total + extend x) % 2 ^ 64 ≡ total + r
unfolding extend
next_total total r x e h = ground arith

total_restarts-all :
    (total : ℕ) (pods : List Pod)
    → total + all_restarts pods < 2 ^ 31
    → total_restarts total pods ≡ total + all_restarts pods
unfolding total_restarts
total_restarts-all total [] h = omega arith
total_restarts-all total (p ∷ pods) h =
    let r = all_counts p.restart_counts in
    let one = sum_int32-all_counts 0 p.restart_counts (omega arith) in
    rw (next_total total r (sum_int32 0 p.restart_counts) (omega (arith, one)) (omega arith))
      (omega (arith, total_restarts-all (total + r) pods (omega arith)))

-- The pods that restarted, each with the restarts of its containers.
abbrev pub restarted : List Pod → List PodRestarts
restarted [] = []
restarted (p ∷ pods) =
    let others = restarted pods in
    if ltb 0 (all_counts p.restart_counts)
    then record { pod = p.namespace ++ bytes "/" ++ p.name; restarts = all_counts p.restart_counts }
      ∷ others
    else others

abbrev pub more : PodRestarts → PodRestarts → Bool
more a b = ltb b.restarts a.restarts

is_positive : (n : ℕ) → n < 2 ^ 31 → less_int32 0 n ≡ ltb 0 n
unfolding less_int32
is_positive n h = ground arith

pod_sum : (counts : List ℕ) → all_counts counts < 2 ^ 31 → sum_int32 0 counts ≡ all_counts counts
pod_sum counts h = omega (arith, sum_int32-all_counts 0 counts (omega arith))

offenders-restarted :
    (pods : List Pod) → all_restarts pods < 2 ^ 31 → offenders pods ≡ restarted pods
unfolding offenders qualified
offenders-restarted [] h = refl
offenders-restarted (p ∷ pods) h =
    let n = all_counts p.restart_counts in
    rw
      (
        pod_sum p.restart_counts (omega arith),
        is_positive n (omega arith),
        offenders-restarted pods (omega arith),
      )
      refl

abbrev is_large : PodRestarts → Bool
is_large r = leb (2 ^ 31) r.restarts

none_large : (pods : List Pod) → all_restarts pods < 2 ^ 31 → count is_large (restarted pods) ≡ 0
none_large [] h = refl
none_large (p ∷ pods) h = ground (arith, none_large pods (omega arith))

-- Below 2^31 the comparison of int32 is that of numbers.
more_restarts-more :
    (a b : PodRestarts) → is_large a ≡ false → is_large b ≡ false → more_restarts a b ≡ more a b
unfolding more_restarts less_int32
more_restarts-more a b h k = ground arith

-- While all containers together restarted less than 2^31 times, the report has that number as its
-- total. It lists five pods at most, each under namespace/name with the restarts of its containers.
-- Together with those it leaves out, of which there are none unless it lists five, they are the pods
-- that restarted, and nobody restarted more often than one before it in this order.
pub aspect_restarts-top :
    (sort_slice : List PodRestarts → List PodRestarts) (pods : List Pod)
    → IsSorter more_restarts sort_slice
    → all_restarts pods < 2 ^ 31
    → (r : RestartsReport) × (omitted : List PodRestarts) × (aspect_restarts sort_slice (some pods)
        ≡ some (record { aspect = bytes "restarts"; value = r }))
      × (r.total ≡ all_restarts pods)
      × IsTop more 5 (restarted pods) r.top omitted
unfolding aspect_restarts msg
aspect_restarts-top sort_slice pods sorter h =
    let rows = sort_slice (offenders pods) in
    (
      record { total = total_restarts 0 pods; top = at_most 5 rows },
      left_out 5 rows,
      refl,
      omega (arith, total_restarts-all 0 pods (omega arith)),
      IsTop-other more_restarts more is_large more_restarts-more 5 (restarted pods) (at_most 5 rows)
          (left_out 5 rows) (none_large pods h)
          (rw (← offenders-restarted pods h)
            (at_most-IsTop more_restarts sort_slice 5 (offenders pods) sorter)),
    )
