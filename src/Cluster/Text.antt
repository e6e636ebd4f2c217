-- ===== src/Cluster/Text.antt =====
-- The functions of Go's package strings that apps/clusterinfo/main.go calls, for one byte.
use pok.Prelude.Bytes.{Bytes}
use pok.Prelude.Lists.{length, contains}
use pok.Prelude.Tests.{◌==◌, nat_key, if◌then◌else◌}
use pok.Prelude.{ℕ, zero, suc, ◌≡◌, refl, false, Option, none, some, [], ◌∷◌, ◌++◌, ap, arith}

-- s[:i] and s[i:]
unfoldable pub take : ℕ → Bytes → Bytes
take zero s = []
take (suc i) [] = []
take (suc i) (c ∷ s) = c ∷ take i s

unfoldable pub drop : ℕ → Bytes → Bytes
drop zero s = s
drop (suc i) [] = []
drop (suc i) (c ∷ s) = drop i s

-- strings.Index(s, c), `none` for -1
unfoldable pub index_byte : ℕ → Bytes → Option ℕ
index_byte c [] = none
index_byte c (d ∷ s) =
    let rest = index_byte c s in
    if d == c then some 0 else (elim rest [ none ↦ none | some i ↦ some (suc i) ])

-- strings.LastIndex(s, c)
unfoldable pub last_index_byte : ℕ → Bytes → Option ℕ
last_index_byte c [] = none
last_index_byte c (d ∷ s) = elim (last_index_byte c s) [
  | some i ↦ some (suc i)
  | none ↦ if d == c then some 0 else none
]

pub index_byte_absent : (c : ℕ) (s : Bytes) → contains c s ≡ false → index_byte c s ≡ none
unfolding index_byte contains
index_byte_absent c [] h = refl
index_byte_absent c (d ∷ s) h = ground (arith, index_byte_absent c s)

pub index_byte-append :
    (c : ℕ) (s rest : Bytes) → contains c s ≡ false → index_byte c (s ++ c ∷ rest) ≡ some (length s)
unfolding index_byte contains
index_byte-append c [] rest h = ground arith
index_byte-append c (d ∷ s) rest h = ground (arith, index_byte-append c s rest)

pub last_index_byte_absent : (c : ℕ) (s : Bytes) → contains c s ≡ false → last_index_byte c s ≡ none
unfolding last_index_byte contains
last_index_byte_absent c [] h = refl
last_index_byte_absent c (d ∷ s) h = ground (arith, last_index_byte_absent c s)

pub last_index_byte-append :
    (c : ℕ) (s rest : Bytes)
    → contains c rest ≡ false
    → last_index_byte c (s ++ c ∷ rest) ≡ some (length s)
unfolding last_index_byte
last_index_byte-append c [] rest h = ground (arith, last_index_byte_absent c rest)
last_index_byte-append c (d ∷ s) rest h = ground (arith, last_index_byte-append c s rest)

pub take-append : (s rest : Bytes) → take (length s) (s ++ rest) ≡ s
unfolding take
take-append [] rest = refl
take-append (c ∷ s) rest = ap (λ t. c ∷ t) (take-append s rest)

pub drop-append : (s : Bytes) (c : ℕ) (rest : Bytes) → drop (suc (length s)) (s ++ c ∷ rest) ≡ rest
unfolding drop
drop-append [] c rest = refl
drop-append (d ∷ s) c rest = drop-append s c rest
