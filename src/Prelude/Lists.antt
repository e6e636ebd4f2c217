-- ===== src/Prelude/Lists.antt =====
-- Lists measured by native numbers, and membership as the Boolean test that code makes.
use Prim.Native.Nat.{ℕ, zero, suc, ◌+◌, ◌≤◌, ◌<◌}
use mathlib.Core.Bool.{Bool, true, false, ◌||◌}
use mathlib.Core.List.{List, [], ◌∷◌, ◌++◌, map}
use mathlib.Core.Option.{Option, none, some}
use mathlib.Core.Path.{◌≡◌, refl}
use native.Mathlib.Omega.{arith}
use pok.Prelude.Tests.{Key, ◌==◌, eq_iff, eq_refl, if◌then◌else◌}

module _ {ℓ} {A : Type ℓ} where
  abbrev pub length : List A → ℕ
  length [] = 0
  length (x ∷ xs) = suc (length xs)

  pub length-append : (xs ys : List A) → length (xs ++ ys) ≡ length xs + length ys
  length-append [] ys = omega arith
  length-append (x ∷ xs) ys = omega (arith, length-append xs ys)

  -- A predicate on every element.
  abbrev pub All {κ} : (A → Type κ) → List A → Type κ
  All P [] = Unit
  All P (x ∷ xs) = P x × All P xs

  tail_eq : {x y : A} {xs ys : List A} → x ∷ xs ≡ y ∷ ys → xs ≡ ys
  tail_eq p = cc

  pub append-cancel_left : (xs : List A) {ys zs : List A} → xs ++ ys ≡ xs ++ zs → ys ≡ zs
  append-cancel_left [] p = p
  append-cancel_left (x ∷ xs) p = append-cancel_left xs (tail_eq p)

  -- A place in a list.
  pub data IsIn (a : A) : List A → Type ℓ where
    first : {xs : List A} → IsIn a (a ∷ xs)
    later : {x : A} {xs : List A} → IsIn a xs → IsIn a (x ∷ xs)

  abbrev pub get_elem? : List A → ℕ → Option A
  get_elem? [] i = none
  get_elem? (x ∷ xs) zero = some x
  get_elem? (x ∷ xs) (suc i) = get_elem? xs i

  -- The first element, or a default.
  abbrev pub head_or : A → List A → A
  head_or d [] = d
  head_or d (x ∷ xs) = x

module _ {ℓ κ} {A : Type ℓ} (P : A → Type κ) where
  pub All-append : (xs ys : List A) → All P xs → All P ys → All P (xs ++ ys)
  All-append [] ys hx hy = hy
  All-append (x ∷ xs) ys hx hy = (hx.0, All-append xs ys hx.1 hy)

  pub All-if : (b : Bool) (xs : List A) → (b ≡ true → All P xs) → All P (if b then xs else [])
  All-if true xs f = f refl
  All-if false xs f = tt

module _ {ℓ κ} {A : Type ℓ} {B : Type κ} (f : A → B) where
  pub length-map : (xs : List A) → length (map f xs) ≡ length xs
  length-map [] = refl
  length-map (x ∷ xs) = omega (arith, length-map xs)

module _ {ℓ κ μ} {A : Type ℓ} (P : A → Type κ) (Q : A → Type μ) where
  pub All-imp : (xs : List A) → ((a : A) → P a → Q a) → All P xs → All Q xs
  All-imp [] f h = tt
  All-imp (x ∷ xs) f h = (f x h.0, All-imp xs f h.1)

module _ {ℓ} {A : Type ℓ} ⦃key : Key A⦄ where
  unfoldable pub contains : A → List A → Bool
  contains a [] = false
  contains a (x ∷ xs) = x == a || contains a xs

  -- No element twice.
  abbrev pub Distinct : List A → Type 0
  Distinct [] = Unit
  Distinct (x ∷ xs) = (contains x xs ≡ false) × Distinct xs

  unfoldable pub remove : A → List A → List A
  remove a [] = []
  remove a (x ∷ xs) = let rest = remove a xs in if x == a then rest else x ∷ rest

  pub contains-append :
      (a : A) (xs ys : List A) → contains a (xs ++ ys) ≡ (contains a xs || contains a ys)
  unfolding contains
  contains-append a [] ys = refl
  contains-append a (x ∷ xs) ys = ground (arith, contains-append a xs ys)

  pub contains-snoc :
      (a x : A) (xs : List A) → contains a (xs ++ x ∷ []) ≡ (if x == a then true else contains a xs)
  unfolding contains
  contains-snoc a x [] = ground arith
  contains-snoc a x (y ∷ xs) = ground (arith, contains-snoc a x xs)

  pub Distinct-snoc :
      (x : A) (xs : List A) → contains x xs ≡ false → Distinct xs → Distinct (xs ++ x ∷ [])
  unfolding contains
  Distinct-snoc x [] h d = (refl, tt)
  Distinct-snoc x (y ∷ xs) h d = (
    ground (arith, contains-snoc y x xs, eq_iff y x, eq_iff x y),
    Distinct-snoc x xs (ground arith) d.1,
  )

  pub contains-remove :
      (a x : A) (xs : List A) → contains x (remove a xs) ≡ (if a == x then false else contains x xs)
  unfolding contains remove
  contains-remove a x [] = ground arith
  contains-remove a x (y ∷ xs) =
      ground (arith, contains-remove a x xs, eq_iff y a, eq_iff y x, eq_iff a x)

  pub Distinct-remove : (a : A) (xs : List A) → Distinct xs → Distinct (remove a xs)
  unfolding remove
  Distinct-remove a [] d = tt
  Distinct-remove a (x ∷ xs) d = ground (arith, contains-remove a x xs, Distinct-remove a xs d.1)

  pub remove_absent : (a : A) (xs : List A) → contains a xs ≡ false → remove a xs ≡ xs
  unfolding contains remove
  remove_absent a [] h = refl
  remove_absent a (x ∷ xs) h = ground (arith, remove_absent a xs)

  pub length-remove :
      (a : A) (xs : List A)
      → Distinct xs
      → contains a xs ≡ true
      → length (remove a xs) + 1 ≡ length xs
  unfolding contains remove
  length-remove a [] d h = ground arith
  length-remove a (x ∷ xs) d h =
      ground (arith, eq_iff x a, length-remove a xs d.1, remove_absent a xs)

  pub length-remove-le : (a : A) (xs : List A) → length (remove a xs) ≤ length xs
  unfolding remove
  length-remove-le a [] = omega arith
  length-remove-le a (x ∷ xs) = ground (arith, length-remove-le a xs)

  length-remove-lt : (a : A) (xs : List A) → contains a xs ≡ true → length (remove a xs) < length xs
  unfolding contains remove
  length-remove-lt a [] h = ground arith
  length-remove-lt a (x ∷ xs) h = ground (arith, length-remove-lt a xs, length-remove-le a xs)

  -- Distinct elements that all stand in another list are no more than its elements.
  pub length-le_of_contains :
      (xs ys : List A)
      → Distinct xs
      → ((a : A) → contains a xs ≡ true → contains a ys ≡ true)
      → length xs ≤ length ys
  unfolding contains
  length-le_of_contains [] ys d h = omega arith
  length-le_of_contains (x ∷ xs) ys d h = omega (
    arith,
    length-remove-lt x ys (h x (ground (arith, eq_refl x))),
    length-le_of_contains xs (remove x ys) d.1
        λ a m. ground (arith, contains-remove x a ys, eq_iff x a, h a),
  )

module _ {ℓ κ} {A : Type ℓ} ⦃key : Key A⦄ (P : A → Type κ) where
  -- What holds of all that a list contains holds of its elements.
  pub All-contains : (xs : List A) → ((a : A) → contains a xs ≡ true → P a) → All P xs
  unfolding contains
  All-contains [] f = tt
  All-contains (x ∷ xs) f =
      (f x (ground (arith, eq_refl x)), All-contains xs λ a h. f a (ground arith))
