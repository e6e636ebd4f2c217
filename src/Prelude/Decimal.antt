-- ===== src/Prelude/Decimal.antt =====
-- `strconv.FormatInt(n, 10)`, which apps/awscost/estimate.go applies to a volume's size.
use native.Mathlib.Numerals.{unary_clauses}
use pok.Prelude.Bytes.{Bytes}
use pok.Prelude.Lists.{head_or}
use pok.Prelude.Int.{ℤ, pos, negsuc}
use pok.Prelude.Tests.{ltb, nat_beq, Bool-cases, if◌then◌else◌}
use Prim.Native.Nat.{ℕ, zero, suc, ◌+◌, ◌-◌, ◌*◌, ◌/◌, ◌%◌, ◌^◌, ◌<◌}
use mathlib.Core.Bool.{true}
use mathlib.Core.List.{[], ◌∷◌, ◌++◌}
use mathlib.Core.Logic.{inl, inr}
use mathlib.Core.Path.{◌≡◌, refl, ap}
use native.Mathlib.Omega.{arith}

-- Fuel bounds the number of digits.
unfoldable pub digits : ℕ → ℕ → Bytes
digits zero n = []
digits (suc fuel) n =
    let rest = digits fuel (n / 10) in
    if ltb n 10 then (48 + n) ∷ [] else rest ++ (48 + n % 10) ∷ []

-- An int64 is below 10 ^ 19 either way.
unfoldable pub format_int : ℤ → Bytes
format_int (pos n) = digits 20 n
format_int (negsuc n) = 45 ∷ digits 20 (n + 1)

-- The number that decimal digits denote, after those that are read already.
abbrev pub read_digits : ℕ → Bytes → ℕ
read_digits n [] = n
read_digits n (c ∷ cs) = read_digits (n * 10 + (c - 48)) cs

read_digits-snoc :
    (n c : ℕ) (cs : Bytes) → read_digits n (cs ++ c ∷ []) ≡ read_digits n cs * 10 + (c - 48)
read_digits-snoc n c [] = refl
read_digits-snoc n c (d ∷ cs) = read_digits-snoc (n * 10 + (d - 48)) c cs

pow_step : (n : ℕ) → 10 ^ suc (suc n) ≡ 10 ^ suc n * 10
pow_step n = simp unary_clauses (omega arith)

pub read_digits-digits : (fuel n : ℕ) → n < 10 ^ suc fuel → read_digits 0 (digits (suc fuel) n) ≡ n
unfolding digits
read_digits-digits zero n h = ground arith
read_digits-digits (suc fuel) n h = elim (Bool-cases (ltb n 10)) [
  | inl small ↦ rw small (ground arith)
  | inr large ↦ rw large (
      omega (
        arith,
        read_digits-snoc 0 (48 + n % 10) (digits (suc fuel) (n / 10)),
        read_digits-digits fuel (n / 10) (omega (arith, pow_step fuel)),
      ))
]

-- Reads back what `format_int` writes.
unfoldable pub read_int : Bytes → ℤ
read_int [] = pos 0
read_int (c ∷ cs) =
    if nat_beq c 45 then negsuc (read_digits 0 cs - 1) else pos (read_digits 0 (c ∷ cs))

-- The values of an int64.
abbrev pub IsInt64 : ℤ → Type 0
IsInt64 (pos n) = n < 2 ^ 63
IsInt64 (negsuc n) = n < 2 ^ 63

head_append :
    (xs ys : Bytes)
    → ltb 47 (head_or 48 xs) ≡ true
    → ltb 47 (head_or 48 ys) ≡ true
    → ltb 47 (head_or 48 (xs ++ ys)) ≡ true
head_append [] ys hx hy = hy
head_append (x ∷ xs) ys hx hy = hx

head_digits : (fuel n : ℕ) → ltb 47 (head_or 48 (digits fuel n)) ≡ true
unfolding digits
head_digits zero n = refl
head_digits (suc fuel) n = elim (Bool-cases (ltb n 10)) [
  | inl small ↦ rw small (ground arith)
  | inr large ↦ rw large (
      head_append (digits fuel (n / 10)) ((48 + n % 10) ∷ []) (head_digits fuel (n / 10))
        (ground arith))
]

read_pos : (cs : Bytes) → ltb 47 (head_or 48 cs) ≡ true → read_int cs ≡ pos (read_digits 0 cs)
unfolding read_int
read_pos [] h = refl
read_pos (c ∷ cs) h = ground arith

-- Formatting keeps every int64 apart from the others: it can be read back.
pub read_int-format_int : (z : ℤ) → IsInt64 z → read_int (format_int z) ≡ z
unfolding read_int format_int
read_int-format_int (pos n) h =
    rw (read_pos (digits 20 n) (head_digits 20 n)) (ap pos (read_digits-digits 19 n (omega arith)))
read_int-format_int (negsuc n) h =
    ap negsuc (omega (arith, read_digits-digits 19 (n + 1) (omega arith)))
