-- ===== src/Cluster/Workloads/Tallied.antt =====
-- The counts of the pods aspect.
use pok.Cluster.Sorting.{count}
use pok.Cluster.Workloads.{PodsReport, msg, tally, aspect_pods}
use pok.Prelude.Bytes.{Bytes, bytes, bytes_key}
use pok.Prelude.Lists.{length}
use pok.Prelude.Maps.{Map, index, insert, index-insert}
use pok.Prelude.Tests.{◌==◌, eq_iff}
use pok.Prelude.{ℕ, ◌+◌, ◌≤◌, ◌≡◌, refl, some, List, [], ◌∷◌, arith}

pub index-tally :
    (k : Bytes) (ks : List Bytes) (counts : Map Bytes ℕ)
    → index 0 k (tally ks counts) ≡ index 0 k counts + count (λ j. j == k) ks
unfolding tally
index-tally k [] counts = omega arith
index-tally k (j ∷ ks) counts = ground (
  arith,
  index-tally k ks (insert j (index 0 j counts + 1) counts),
  index-insert 0 j k (index 0 j counts + 1) counts,
  eq_iff j k,
)

-- The four phases exclude each other.
phases-length :
    (phases : List Bytes)
    → count (λ p. p == bytes "Running") phases
        + count (λ p. p == bytes "Pending") phases
        + count (λ p. p == bytes "Succeeded") phases
        + count (λ p. p == bytes "Failed") phases
      ≤ length phases
phases-length [] = omega arith
phases-length (p ∷ phases) = ground (
  arith,
  phases-length phases,
  eq_iff p (bytes "Running"),
  eq_iff p (bytes "Pending"),
  eq_iff p (bytes "Succeeded"),
  eq_iff p (bytes "Failed"),
)

-- The pods report counts the pods of each of four phases, which are at most all pods.
pub aspect_pods-count :
    (phases : List Bytes)
    → (r : PodsReport) × ((aspect_pods (some phases)
          ≡ some (record { aspect = bytes "pods"; value = r }))
        × (r.running ≡ count (λ p. p == bytes "Running") phases)
        × (r.pending ≡ count (λ p. p == bytes "Pending") phases)
        × (r.succeeded ≡ count (λ p. p == bytes "Succeeded") phases)
        × (r.failed ≡ count (λ p. p == bytes "Failed") phases)
        × (r.running + r.pending + r.succeeded + r.failed ≤ r.total))
unfolding aspect_pods msg index
aspect_pods-count phases =
    let tallied : (k : Bytes) → index 0 k (tally phases []) ≡ count (λ j. j == k) phases =
      λ k. omega (arith, index-tally k phases []) in
    (
      record {
        total = length phases;
        running = index 0 (bytes "Running") (tally phases []);
        pending = index 0 (bytes "Pending") (tally phases []);
        succeeded = index 0 (bytes "Succeeded") (tally phases []);
        failed = index 0 (bytes "Failed") (tally phases []);
      },
      (
        refl,
        tallied (bytes "Running"),
        tallied (bytes "Pending"),
        tallied (bytes "Succeeded"),
        tallied (bytes "Failed"),
        omega (
          arith,
          phases-length phases,
          tallied (bytes "Running"),
          tallied (bytes "Pending"),
          tallied (bytes "Succeeded"),
          tallied (bytes "Failed"),
        ),
      ),
    )
