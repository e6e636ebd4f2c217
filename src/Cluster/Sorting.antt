-- ===== src/Cluster/Sorting.antt =====
-- Go's package sort. `sort.Strings` has one possible result. `sort.Slice` may leave elements that
-- compare equal in any order, so code that calls it takes the sort as an argument.
use pok.Prelude.Bytes.{Bytes}
use pok.Prelude.Lists.{All, All-imp}
use pok.Prelude.Tests.{ltb, nat_beq, if◌then◌else◌, Bool-cases}
use pok.Prelude.{
  ℕ, suc, ◌+◌, ◌++◌, ◌≡◌, refl, inl, inr, Bool, true, false, ◌&&◌, ◌||◌, List, [], ◌∷◌, arith,
}

module _ {ℓ} {A : Type ℓ} where
  -- The elements that pass a test.
  abbrev pub count : (A → Bool) → List A → ℕ
  count test [] = 0
  count test (x ∷ xs) = if test x then suc (count test xs) else count test xs

  pub count-append :
      (test : A → Bool) (xs ys : List A) → count test (xs ++ ys) ≡ count test xs + count test ys
  count-append test [] ys = omega arith
  count-append test (x ∷ xs) ys = ground (arith, count-append test xs ys)

  -- Every test finds as many in the one list as in the other.
  abbrev pub IsRearranged : List A → List A → Type ℓ
  IsRearranged xs ys = (test : A → Bool) → count test xs ≡ count test ys

  -- No element is less than one before it.
  abbrev pub IsSorted : (A → A → Bool) → List A → Type 0
  IsSorted less [] = Unit
  IsSorted less (x ∷ xs) = All (λ y. less y x ≡ false) xs × IsSorted less xs

module _ {ℓ} {A : Type ℓ} (less : A → A → Bool) where
  unfoldable pub insert_sorted : A → List A → List A
  insert_sorted x [] = x ∷ []
  insert_sorted x (y ∷ ys) =
      let rest = insert_sorted x ys in if less y x then y ∷ rest else x ∷ y ∷ ys

  unfoldable pub sort : List A → List A
  unfolding insert_sorted
  sort [] = []
  sort (x ∷ xs) = insert_sorted x (sort xs)

  count-insert_sorted :
      (test : A → Bool) (x : A) (ys : List A)
      → count test (insert_sorted x ys) ≡ count test (x ∷ ys)
  unfolding insert_sorted
  count-insert_sorted test x [] = refl
  count-insert_sorted test x (y ∷ ys) = ground (arith, count-insert_sorted test x ys)

  pub sort-IsRearranged : (xs : List A) → IsRearranged (sort xs) xs
  unfolding sort
  sort-IsRearranged [] test = refl
  sort-IsRearranged (x ∷ xs) test =
      ground (arith, count-insert_sorted test x (sort xs), sort-IsRearranged xs test)

  module _ {κ} (P : A → Type κ) where
    All-insert_sorted : (x : A) (ys : List A) → P x → All P ys → All P (insert_sorted x ys)
    unfolding insert_sorted
    All-insert_sorted x [] px h = (px, tt)
    All-insert_sorted x (y ∷ ys) px h = elim (Bool-cases (less y x)) [
      | inl e ↦ rw (e, All) (h.0, All-insert_sorted x ys px h.1)
      | inr e ↦ rw (e, All) (px, h)
    ]

  -- What `sort` asks of its comparison.
  pub record IsOrder : Type ℓ where
    pub asymmetric : (x y : A) → less x y ≡ true → less y x ≡ false
    pub chained : (x y z : A) → less y x ≡ false → less z y ≡ false → less z x ≡ false

  module _ (order : IsOrder) where
    insert_sorted-IsSorted :
        (x : A) (ys : List A) → IsSorted less ys → IsSorted less (insert_sorted x ys)
    unfolding insert_sorted
    insert_sorted-IsSorted x [] s = (tt, tt)
    insert_sorted-IsSorted x (y ∷ ys) s = elim (Bool-cases (less y x)) [
      | inl e ↦
          rw (e, IsSorted)
            (
              All-insert_sorted (λ z. less z y ≡ false) x ys (order.asymmetric y x e) s.0,
              insert_sorted-IsSorted x ys s.1,
            )
      | inr e ↦
          rw (e, IsSorted)
            (
              (
                e,
                All-imp (λ z. less z y ≡ false) (λ z. less z x ≡ false) ys
                    (λ z. order.chained x y z e) s.0,
              ),
              s,
            )
    ]

    pub sort-IsSorted : (xs : List A) → IsSorted less (sort xs)
    unfolding sort
    sort-IsSorted [] = tt
    sort-IsSorted (x ∷ xs) = insert_sorted-IsSorted x (sort xs) (sort-IsSorted xs)

-- s < t
unfoldable pub less_bytes : Bytes → Bytes → Bool
less_bytes s [] = false
less_bytes [] (d ∷ t) = true
less_bytes (c ∷ s) (d ∷ t) = ltb c d || (nat_beq c d && less_bytes s t)

less_bytes_asymmetric : (s t : Bytes) → less_bytes s t ≡ true → less_bytes t s ≡ false
unfolding less_bytes
less_bytes_asymmetric [] t h = refl
less_bytes_asymmetric (c ∷ s) [] h = ground arith
less_bytes_asymmetric (c ∷ s) (d ∷ t) h = ground (arith, less_bytes_asymmetric s t)

less_bytes_chained :
    (s t u : Bytes) → less_bytes t s ≡ false → less_bytes u t ≡ false → less_bytes u s ≡ false
unfolding less_bytes
less_bytes_chained [] t u h k = refl
less_bytes_chained (c ∷ s) [] u h k = ground arith
less_bytes_chained (c ∷ s) (d ∷ t) [] h k = ground arith
less_bytes_chained (c ∷ s) (d ∷ t) (e ∷ u) h k = ground (arith, less_bytes_chained s t u)

pub less_bytes-IsOrder : IsOrder less_bytes
less_bytes-IsOrder = record { asymmetric = less_bytes_asymmetric; chained = less_bytes_chained }

-- sort.Strings
unfoldable pub sort_strings : List Bytes → List Bytes
sort_strings = sort less_bytes

-- The order that sort.Strings gives, and nothing else changed.
pub sort_strings-IsSorted :
    (xs : List Bytes) → IsSorted less_bytes (sort_strings xs) × IsRearranged (sort_strings xs) xs
unfolding sort_strings
sort_strings-IsSorted xs =
    (sort-IsSorted less_bytes less_bytes-IsOrder xs, sort-IsRearranged less_bytes xs)

-- What sort.Slice promises of its result.
abbrev pub IsSorter {ℓ} : {A : Type ℓ} → (A → A → Bool) → (List A → List A) → Type ℓ
IsSorter {A} less sort_slice =
    (xs : List A) → IsSorted less (sort_slice xs) × IsRearranged (sort_slice xs) xs
