-- ===== src/Prelude/Maps.antt =====
-- Go's map: what a read of a missing key, a write and a delete do. `range` visits every entry
-- once, in an order that the language leaves open, so code that ranges takes the order as an
-- argument, and `IsRange` states what the language promises of it.
use Prim.Native.Nat.{◌+◌, ◌≤◌}
use mathlib.Core.Bool.{Bool, true, false, ◌||◌}
use mathlib.Core.List.{List, [], ◌∷◌}
use mathlib.Core.Logic.{inl, inr}
use mathlib.Core.Option.{Option, none, some}
use mathlib.Core.Path.{◌≡◌, refl, ◌∙◌}
use native.Mathlib.Omega.{arith}
use pok.Prelude.Lists.{length, contains, Distinct, length-le_of_contains}
use pok.Prelude.Tests.{Key, ◌==◌, eq_iff, Bool-cases, if◌then◌else◌}

abbrev pub Map {ℓ κ} : Type ℓ → Type κ → Type (ℓ ⊔ κ)
Map K V = List (K × V)

module _ {ℓ κ} {K : Type ℓ} {V : Type κ} where
  abbrev pub keys : Map K V → List K
  keys [] = []
  keys ((j, v) ∷ m) = j ∷ keys m

-- What the language promises of the order of `range`: every key, once, and no other.
pub record IsRange {ℓ} {K : Type ℓ} ⦃key : Key K⦄ (has_key : K → Bool) (order : List K)
    : Type ℓ where
  pub once : Distinct order
  pub all : (k : K) → contains k order ≡ has_key k

module _ {ℓ κ} {K : Type ℓ} {V : Type κ} ⦃key : Key K⦄ where
  -- v, ok := m[k]
  unfoldable pub lookup : K → Map K V → Option V
  lookup sought [] = none
  lookup sought ((k, v) ∷ rest) = if k == sought then some v else lookup sought rest

  -- _, ok := m[k]
  unfoldable pub has : K → Map K V → Bool
  has k [] = false
  has k ((j, v) ∷ m) = j == k || has k m

  -- m[k], with the zero value of the type for a missing key
  unfoldable pub index : V → K → Map K V → V
  index zero_value k [] = zero_value
  index zero_value k ((j, v) ∷ m) = if j == k then v else index zero_value k m

  -- m[k] = v
  unfoldable pub insert : K → V → Map K V → Map K V
  insert written new [] = (written, new) ∷ []
  insert written new ((k, old) ∷ rest) =
      if k == written then (k, new) ∷ rest else (k, old) ∷ insert written new rest

  -- The entries that `range` visits, in the order of the keys given.
  unfoldable pub range : List K → Map K V → List (K × V)
  unfolding lookup
  range [] m = []
  range (k ∷ ks) m =
      let rest = range ks m in elim (lookup k m) [ none ↦ rest | some v ↦ (k, v) ∷ rest ]

  -- A read after a write.
  pub lookup-insert :
      (written sought : K) (new : V) (m : Map K V)
      → lookup sought (insert written new m)
        ≡ (if written == sought then some new else lookup sought m)
  unfolding lookup insert
  lookup-insert written sought new [] = refl
  lookup-insert written sought new ((k, old) ∷ rest) = ground (
    arith,
    lookup-insert written sought new rest,
    eq_iff k written,
    eq_iff k sought,
    eq_iff written sought,
  )

  pub has-insert :
      (written sought : K) (new : V) (m : Map K V)
      → has sought (insert written new m) ≡ (if written == sought then true else has sought m)
  unfolding has insert
  has-insert written sought new [] = ground arith
  has-insert written sought new ((k, old) ∷ rest) = ground (
    arith,
    has-insert written sought new rest,
    eq_iff k written,
    eq_iff k sought,
    eq_iff written sought,
  )

  pub index-insert :
      (zero_value : V) (written sought : K) (new : V) (m : Map K V)
      → index zero_value sought (insert written new m)
        ≡ (if written == sought then new else index zero_value sought m)
  unfolding index insert
  index-insert zero_value written sought new [] = refl
  index-insert zero_value written sought new ((k, old) ∷ rest) = ground (
    arith,
    index-insert zero_value written sought new rest,
    eq_iff k written,
    eq_iff k sought,
    eq_iff written sought,
  )

  pub lookup_missing : (k : K) (m : Map K V) → has k m ≡ false → lookup k m ≡ none
  unfolding lookup has
  lookup_missing k [] h = refl
  lookup_missing k ((j, v) ∷ m) h = ground (arith, lookup_missing k m)

  pub lookup_present : (k : K) (m : Map K V) → has k m ≡ true → (v : V) × (lookup k m ≡ some v)
  unfolding lookup has
  lookup_present k [] h = cc
  lookup_present k ((j, v) ∷ m) h = elim (Bool-cases (j == k)) [
    | inl e ↦ (v, rw e)
    | inr e ↦ rw e (lookup_present k m (ground arith))
  ]

  pub has_of_lookup : (k : K) (v : V) (m : Map K V) → lookup k m ≡ some v → has k m ≡ true
  unfolding lookup has
  has_of_lookup k v [] h = ground arith
  has_of_lookup k v ((j, w) ∷ m) h = ground (arith, has_of_lookup k v m)

  pub has_of_missing : (k : K) (m : Map K V) → lookup k m ≡ none → has k m ≡ false
  unfolding lookup has
  has_of_missing k [] h = refl
  has_of_missing k ((j, v) ∷ m) h = ground (arith, has_of_missing k m)

  pub index_of_lookup :
      (zero_value : V) (k : K) (m : Map K V)
      → index zero_value k m ≡ elim (lookup k m) [ none ↦ zero_value | some v ↦ v ]
  unfolding lookup index
  index_of_lookup zero_value k [] = refl
  index_of_lookup zero_value k ((j, v) ∷ m) = ground (arith, index_of_lookup zero_value k m)

  -- A write adds an entry exactly when the key was missing.
  pub length-insert :
      (k : K) (v : V) (m : Map K V)
      → length (insert k v m) ≡ (if has k m then length m else length m + 1)
  unfolding has insert
  length-insert k v [] = omega arith
  length-insert k v ((j, w) ∷ m) = ground (arith, length-insert k v m)

  pub contains-keys : (k : K) (m : Map K V) → contains k (keys m) ≡ has k m
  unfolding contains has
  contains-keys k [] = refl
  contains-keys k ((j, v) ∷ m) = ground (arith, contains-keys k m)

  pub length-keys : (m : Map K V) → length (keys m) ≡ length m
  length-keys [] = refl
  length-keys ((j, v) ∷ m) = omega (arith, length-keys m)

  -- Distinct keys that a map has are no more than its entries.
  pub length-le_of_has :
      (ks : List K) (m : Map K V)
      → Distinct ks
      → ((k : K) → contains k ks ≡ true → has k m ≡ true)
      → length ks ≤ length m
  length-le_of_has ks m d h =
      omega
        (arith, length-keys m, length-le_of_contains ks (keys m) d λ k c. contains-keys k m ∙ h k c)

  lookup-range_absent :
      (k : K) (order : List K) (m : Map K V)
      → contains k order ≡ false
      → lookup k (range order m) ≡ none
  unfolding contains lookup range
  lookup-range_absent k [] m h = refl
  lookup-range_absent k (j ∷ order) m h = ground (arith, lookup-range_absent k order m)

  lookup-range_missing :
      (k : K) (order : List K) (m : Map K V) → lookup k m ≡ none → lookup k (range order m) ≡ none
  unfolding lookup range
  lookup-range_missing k [] m h = refl
  lookup-range_missing k (j ∷ order) m h =
      ground (arith, eq_iff j k, lookup-range_missing k order m)

  lookup-range_present :
      (k : K) (order : List K) (m : Map K V)
      → contains k order ≡ true
      → lookup k (range order m) ≡ lookup k m
  unfolding contains lookup range
  lookup-range_present k [] m h = ground arith
  lookup-range_present k (j ∷ order) m h =
      ground (arith, eq_iff j k, lookup-range_present k order m, lookup-range_missing k order m)

  -- To range over a map is to see its contents, whatever the order.
  pub lookup-range :
      (k : K) (order : List K) (m : Map K V)
      → IsRange (λ j. has j m) order
      → lookup k (range order m) ≡ lookup k m
  lookup-range k order m r = ground (
    arith,
    r.all k,
    lookup-range_absent k order m,
    lookup-range_present k order m,
    lookup_missing k m,
  )
