-- ===== src/Cluster/Workloads/Top.antt =====
-- The first elements of a list that `sort.Slice` sorts.
use pok.Cluster.Sorting.{count, IsSorted, IsRearranged, IsSorter}
use pok.Cluster.Workloads.{at_most}
use pok.Prelude.Lists.{length, All}
use pok.Prelude.{
  ℕ, zero, suc, ◌≤◌, ◌≡◌, ◌⊎◌, ◌∙◌, refl, inl, inr, Bool, false, List, [], ◌∷◌, ◌++◌, arith,
}

-- What `at_most` leaves out.
abbrev pub left_out {ℓ} : {A : Type ℓ} → ℕ → List A → List A
left_out zero xs = xs
left_out (suc n) [] = []
left_out (suc n) (x ∷ xs) = left_out n xs

at_most-left_out {ℓ} : {A : Type ℓ} (n : ℕ) (xs : List A) → at_most n xs ++ left_out n xs ≡ xs
unfolding at_most
at_most-left_out zero xs = refl
at_most-left_out (suc n) [] = refl
at_most-left_out (suc n) (x ∷ xs) = cc (at_most-left_out n xs)

length-at_most {ℓ} :
    {A : Type ℓ} (n : ℕ) (xs : List A)
    → (length (at_most n xs) ≤ n) × ((left_out n xs ≡ []) ⊎ (length (at_most n xs) ≡ n))
unfolding at_most
length-at_most zero xs = (omega arith, inr refl)
length-at_most (suc n) [] = (omega arith, inl refl)
length-at_most (suc n) (x ∷ xs) = ground (arith, length-at_most n xs)

-- `top` are the first `n` of `xs` in the order of `less`, or all of them if there are fewer:
-- together with those omitted they are `xs`, and none is less than one before it.
pub record IsTop {ℓ} {A : Type ℓ} (less : A → A → Bool) (n : ℕ) (xs top omitted : List A)
    : Type ℓ where
  pub fits : length top ≤ n
  pub full : (omitted ≡ []) ⊎ (length top ≡ n)
  pub sorted : IsSorted less (top ++ omitted)
  pub rearranged : IsRearranged (top ++ omitted) xs

pub at_most-IsTop {ℓ} :
    {A : Type ℓ} (less : A → A → Bool) (sort_slice : List A → List A) (n : ℕ) (xs : List A)
    → IsSorter less sort_slice
    → IsTop less n xs (at_most n (sort_slice xs)) (left_out n (sort_slice xs))
at_most-IsTop less sort_slice n xs sorter = record {
  fits = (length-at_most n (sort_slice xs)).0;
  full = (length-at_most n (sort_slice xs)).1;
  sorted = rw (at_most-left_out n (sort_slice xs)) (sorter xs).0;
  rearranged = λ test. rw (at_most-left_out n (sort_slice xs)) ((sorter xs).1 test);
}

module _ {ℓ} {A : Type ℓ} (less other : A → A → Bool) (strange : A → Bool)
    (agree : (a b : A) → strange a ≡ false → strange b ≡ false → less a b ≡ other a b) where
  All-other :
      (x : A) (xs : List A)
      → strange x ≡ false
      → count strange xs ≡ 0
      → All (λ y. less y x ≡ false) xs
      → All (λ y. other y x ≡ false) xs
  All-other x [] e h s = tt
  All-other x (y ∷ xs) e h s =
      (ground (arith, h, s.0, agree y x), All-other x xs e (ground (arith, h)) s.1)

  IsSorted-other : (xs : List A) → count strange xs ≡ 0 → IsSorted less xs → IsSorted other xs
  IsSorted-other [] h s = tt
  IsSorted-other (x ∷ xs) h s = (
    All-other x xs (ground (arith, h)) (ground (arith, h)) s.0,
    IsSorted-other xs (ground (arith, h)) s.1,
  )

  -- Two comparisons that agree where no element is strange have the same first elements.
  pub IsTop-other :
      (n : ℕ) (xs top omitted : List A)
      → count strange xs ≡ 0
      → IsTop less n xs top omitted
      → IsTop other n xs top omitted
  IsTop-other n xs top omitted h t = record {
    fits = t.fits;
    full = t.full;
    sorted = IsSorted-other (top ++ omitted) (t.rearranged strange ∙ h) t.sorted;
    rearranged = t.rearranged;
  }
