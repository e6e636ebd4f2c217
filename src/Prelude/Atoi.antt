-- ===== src/Prelude/Atoi.antt =====
-- `strconv.Atoi`, `none` being its error: a sign at most, decimal digits, and the range of an int64.
use Prim.Native.Nat.{ℕ, zero, suc, ◌+◌, ◌-◌, ◌/◌, ◌%◌, ◌^◌, ◌≤◌, ◌<◌}
use mathlib.Core.Bool.{Bool, true, false, ◌&&◌}
use mathlib.Core.List.{[], ◌∷◌, ◌++◌}
use mathlib.Core.Logic.{inl, inr}
use mathlib.Core.Option.{Option, none, some}
use mathlib.Core.Path.{◌≡◌, ◌∙◌, refl, ap}
use native.Mathlib.Omega.{arith}
use pok.Prelude.Bytes.{Bytes, bytes_key}
use pok.Prelude.Decimal.{digits, format_int, read_digits, read_digits-digits, IsInt64}
use pok.Prelude.Int.{ℤ, pos, negsuc}
use pok.Prelude.Tests.{◌==◌, eq_iff, ltb, leb, nat_beq, if◌then◌else◌, Bool-cases, Option-cases}

unfoldable pub is_digits : Bytes → Bool
is_digits [] = true
is_digits (c ∷ s) = leb b'0' c && leb c b'9' && is_digits s

abbrev negate : ℕ → ℤ
negate zero = pos 0
negate (suc n) = negsuc n

-- At least one digit, and a value of at most `top`.
unfoldable pub read_below : ℕ → Bytes → Option ℕ
unfolding is_digits
read_below top [] = none
read_below top (c ∷ s) =
    if is_digits (c ∷ s) && leb (read_digits 0 (c ∷ s)) top
    then some (read_digits 0 (c ∷ s))
    else none

unfoldable pub atoi : Bytes → Option ℤ
unfolding read_below
atoi [] = none
atoi (c ∷ s) =
    if nat_beq c b'-'
    then elim (read_below (2 ^ 63) s) [ none ↦ none | some n ↦ some (negate n) ]
    else elim (read_below (2 ^ 63 - 1) (if nat_beq c b'+' then s else c ∷ s)) [
      | none ↦ none
      | some n ↦ some (pos n)
    ]

-- The value that `strconv.Atoi` returns beside its error: 0 for a text that is no number, and the
-- nearest int64 for a number out of range.
abbrev clamp : ℕ → Bytes → ℕ
clamp top [] = 0
clamp top (c ∷ s) =
    if is_digits (c ∷ s)
    then (if leb (read_digits 0 (c ∷ s)) top then read_digits 0 (c ∷ s) else top)
    else 0

unfoldable pub atoi_value : Bytes → ℤ
unfolding is_digits
atoi_value [] = pos 0
atoi_value (c ∷ s) =
    if nat_beq c b'-'
    then negate (clamp (2 ^ 63) s)
    else pos (clamp (2 ^ 63 - 1) (if nat_beq c b'+' then s else c ∷ s))

is_digits-append : (s t : Bytes) → is_digits (s ++ t) ≡ (is_digits s && is_digits t)
unfolding is_digits
is_digits-append [] t = refl
is_digits-append (c ∷ s) t = ground (arith, is_digits-append s t)

is_digits-digits : (fuel n : ℕ) → is_digits (digits fuel n) ≡ true
unfolding digits is_digits
is_digits-digits zero n = refl
is_digits-digits (suc fuel) n = elim (Bool-cases (ltb n 10)) [
  | inl small ↦ rw small (ground arith)
  | inr large ↦ rw large (
      ground (
        arith,
        is_digits-append (digits fuel (n / 10)) ((48 + n % 10) ∷ []),
        is_digits-digits fuel (n / 10),
      ))
]

-- Digits are a non-empty text that begins with one.
read_below-digits :
    (top : ℕ) (s : Bytes) (n : ℕ)
    → is_digits s ≡ true
    → 0 < n
    → read_digits 0 s ≡ n
    → n ≤ top
    → read_below top s ≡ some n
unfolding read_below
read_below-digits top [] n d h e b = absurd (omega arith)
read_below-digits top (c ∷ s) n d h e b = ground (arith, d, e)

atoi_digits :
    (s : Bytes) (n : ℕ)
    → is_digits s ≡ true
    → 0 < n
    → read_digits 0 s ≡ n
    → n ≤ 2 ^ 63 - 1
    → atoi s ≡ some (pos n)
unfolding atoi
atoi_digits [] n d h e b = absurd (omega arith)
atoi_digits (c ∷ s) n d h e b =
    rw (not_sign b'-' c s (omega arith) d, not_sign b'+' c s (omega arith) d)
      (rw (read_below-digits (2 ^ 63 - 1) (c ∷ s) n d h e b))
  where
    not_sign :
        (sign c : ℕ) (s : Bytes) → sign < b'0' → is_digits (c ∷ s) ≡ true → nat_beq c sign ≡ false
    not_sign sign c s h d = unfold is_digits in ground (arith, d)

-- Every int64 is read from its decimal form.
pub atoi-format_int : (z : ℤ) → IsInt64 z → atoi (format_int z) ≡ some z
unfolding format_int
atoi-format_int (pos zero) h = unfold atoi digits in refl
atoi-format_int (pos (suc n)) h =
    atoi_digits (digits 20 (suc n)) (suc n) (is_digits-digits 20 (suc n)) (omega arith)
      (read_digits-digits 19 (suc n) (omega arith)) (omega arith)
atoi-format_int (negsuc n) h =
    unfold atoi in
    rw (
      read_below-digits (2 ^ 63) (digits 20 (n + 1)) (suc n) (is_digits-digits 20 (n + 1))
        (omega arith) (read_digits-digits 19 (n + 1) (omega arith) ∙ omega arith) (omega arith))

-- The decimal form is never empty.
pub format_int-ne-nil : (z : ℤ) → IsInt64 z → (format_int z == []) ≡ false
format_int-ne-nil z h = elim (Bool-cases (format_int z == [])) [
  | inr e ↦ e
  | inl e ↦ cc (ap atoi ((eq_iff (format_int z) []).0 e), atoi-format_int z h, atoi_nil)
]
  where
    atoi_nil : atoi [] ≡ none
    atoi_nil = unfold atoi in refl

clamp-read_below : (top : ℕ) (s : Bytes) (n : ℕ) → read_below top s ≡ some n → clamp top s ≡ n
unfolding read_below
clamp-read_below top [] n h = cc
clamp-read_below top (c ∷ s) n h = ground (arith, h)

-- Where there is no error the two agree.
pub atoi_value-atoi : (s : Bytes) (z : ℤ) → atoi s ≡ some z → atoi_value s ≡ z
unfolding atoi atoi_value
atoi_value-atoi [] z h = cc
atoi_value-atoi (c ∷ s) z h = elim (Bool-cases (nat_beq c b'-')) [
  | inl e ↦ rw e (negative s z (rw e at h))
  | inr e ↦ rw e (positive (if nat_beq c b'+' then s else c ∷ s) z (rw e at h))
]
  where
    negative :
        (s : Bytes) (z : ℤ)
        → (elim (read_below (2 ^ 63) s) [ none ↦ none | some n ↦ some (negate n) ]) ≡ some z
        → negate (clamp (2 ^ 63) s) ≡ z
    negative s z h = elim (Option-cases (read_below (2 ^ 63) s)) [
      | inl k ↦ cc (rw k at h)
      | inr (n, k) ↦ cc (rw k at h, clamp-read_below (2 ^ 63) s n k)
    ]

    positive :
        (s : Bytes) (z : ℤ)
        → (elim (read_below (2 ^ 63 - 1) s) [ none ↦ none | some n ↦ some (pos n) ]) ≡ some z
        → pos (clamp (2 ^ 63 - 1) s) ≡ z
    positive s z h = elim (Option-cases (read_below (2 ^ 63 - 1) s)) [
      | inl k ↦ cc (rw k at h)
      | inr (n, k) ↦ cc (rw k at h, clamp-read_below (2 ^ 63 - 1) s n k)
    ]
