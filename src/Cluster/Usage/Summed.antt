-- ===== src/Cluster/Usage/Summed.antt =====
-- Sums over listings, which do not depend on the order.
use pok.Cluster.Sorting.{count, IsRearranged}
use pok.Prelude.Tests.{ltb, if◌then◌else◌}
use pok.Prelude.{ℕ, zero, suc, ◌+◌, ◌≤◌, ◌≡◌, refl, List, [], ◌∷◌, arith}

abbrev pub sum_of {ℓ} : {A : Type ℓ} → (A → ℕ) → List A → ℕ
sum_of f [] = 0
sum_of f (x ∷ xs) = f x + sum_of f xs

module _ {ℓ} {A : Type ℓ} (f : A → ℕ) where
  -- The sum counted by levels: how many elements exceed 0, how many exceed 1, and so on.
  levels : ℕ → List A → ℕ
  levels zero xs = 0
  levels (suc k) xs = count (λ x. ltb k (f x)) xs + levels k xs

  levels-nil : (k : ℕ) → levels k [] ≡ 0
  unfolding levels
  levels-nil zero = refl
  levels-nil (suc k) = omega (arith, levels-nil k)

  levels-cons :
      (k : ℕ) (x : A) (xs : List A)
      → levels k (x ∷ xs) ≡ (if ltb (f x) k then f x else k) + levels k xs
  unfolding levels
  levels-cons zero x xs = ground arith
  levels-cons (suc k) x xs = ground (arith, levels-cons k x xs)

  levels-sum_of : (k : ℕ) (xs : List A) → sum_of f xs ≤ k → levels k xs ≡ sum_of f xs
  levels-sum_of k [] h = levels-nil k
  levels-sum_of k (x ∷ xs) h = ground (arith, levels-cons k x xs, levels-sum_of k xs)

  levels-IsRearranged : (k : ℕ) (xs ys : List A) → IsRearranged xs ys → levels k xs ≡ levels k ys
  unfolding levels
  levels-IsRearranged zero xs ys r = refl
  levels-IsRearranged (suc k) xs ys r =
      omega (arith, levels-IsRearranged k xs ys r, r λ x. ltb k (f x))

  pub sum_of-IsRearranged : (xs ys : List A) → IsRearranged xs ys → sum_of f xs ≡ sum_of f ys
  sum_of-IsRearranged xs ys r =
      let k : ℕ = sum_of f xs + sum_of f ys in
      omega (
        arith,
        levels-sum_of k xs (omega arith),
        levels-sum_of k ys (omega arith),
        levels-IsRearranged k xs ys r,
      )
