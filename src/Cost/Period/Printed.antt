-- ===== src/Cost/Period/Printed.antt =====
-- A date that is printed can be read back.
use mathlib.Core.List.{append_assoc}
use pok.Prelude.Decimal.{digits, read_digits, read_digits-digits}
use pok.Cost.Period.{Date, zeros, padded, format_date}
use pok.Prelude.Bytes.{Bytes, bytes}
use pok.Prelude.Int.{pos}
use pok.Prelude.Lists.{length, contains, contains-append}
use pok.Prelude.Tests.{nat_beq, nat_key, ltb, if◌then◌else◌, Bool-cases}
use pok.Prelude.{
  ℕ, zero, suc, ◌+◌, ◌-◌, ◌/◌, ◌%◌, ◌^◌, ◌<◌, ◌≡◌, ◌∙◌, refl, inl, inr, false, [], ◌∷◌, ◌++◌, arith,
}

-- The parts before and behind the first dash.
abbrev until_dash : Bytes → Bytes
until_dash [] = []
until_dash (c ∷ s) = let rest = until_dash s in if nat_beq c b'-' then [] else c ∷ rest

abbrev after_dash : Bytes → Bytes
after_dash [] = []
after_dash (c ∷ s) = let rest = after_dash s in if nat_beq c b'-' then s else rest

-- Reads a date of year 1 or later.
unfoldable pub read_date : Bytes → Date
read_date s = record {
  year = pos (read_digits 0 (until_dash s));
  month = read_digits 0 (until_dash (after_dash s));
  day = read_digits 0 (after_dash (after_dash s));
}

split_dash :
    (s t : Bytes)
    → contains b'-' s ≡ false
    → (until_dash (s ++ b'-' ∷ t) ≡ s) × (after_dash (s ++ b'-' ∷ t) ≡ t)
unfolding contains
split_dash [] t h = (refl, refl)
split_dash (c ∷ s) t h = ground (arith, h, split_dash s t)

digits_dashless : (fuel n : ℕ) → contains b'-' (digits fuel n) ≡ false
unfolding digits contains
digits_dashless zero n = refl
digits_dashless (suc fuel) n = elim (Bool-cases (ltb n 10)) [
  | inl small ↦ rw small (ground arith)
  | inr large ↦ rw large (
      ground (
        arith,
        contains-append b'-' (digits fuel (n / 10)) ((48 + n % 10) ∷ []),
        digits_dashless fuel (n / 10),
      ))
]

zeros_dashless : (k : ℕ) → contains b'-' (zeros k) ≡ false
unfolding zeros contains
zeros_dashless zero = refl
zeros_dashless (suc k) = zeros_dashless k

padded_dashless : (width n : ℕ) → contains b'-' (padded width n) ≡ false
unfolding padded
padded_dashless width n = ground (
  arith,
  contains-append b'-' (zeros (width - length (digits 20 n))) (digits 20 n),
  zeros_dashless (width - length (digits 20 n)),
  digits_dashless 20 n,
)

read_digits-zeros : (k : ℕ) (s : Bytes) → read_digits 0 (zeros k ++ s) ≡ read_digits 0 s
unfolding zeros
read_digits-zeros zero s = refl
read_digits-zeros (suc k) s = read_digits-zeros k s

read_digits-padded : (width n : ℕ) → n < 10 ^ 20 → read_digits 0 (padded width n) ≡ n
unfolding padded
read_digits-padded width n h =
    read_digits-zeros (width - length (digits 20 n)) (digits 20 n) ∙ read_digits-digits 19 n h

read_parts :
    (a b c : Bytes)
    → contains b'-' a ≡ false
    → contains b'-' b ≡ false
    → read_date (a ++ bytes "-" ++ b ++ bytes "-" ++ c)
      ≡ record { year = pos (read_digits 0 a); month = read_digits 0 b; day = read_digits 0 c }
unfolding read_date
read_parts a b c ha hb = rw (append_assoc (a ++ bytes "-" ++ b) (bytes "-") c) (
    rw (append_assoc (a ++ bytes "-") b (b'-' ∷ c)) (
      rw (append_assoc a (bytes "-") (b ++ b'-' ∷ c)) (
        rw (split_dash a (b ++ b'-' ∷ c) ha).0 (
          rw (split_dash a (b ++ b'-' ∷ c) ha).1
            (rw (split_dash b c hb).0 (rw (split_dash b c hb).1))))))

pub read_date-format_date :
    (y month day : ℕ)
    → y < 10 ^ 20
    → month < 10 ^ 20
    → day < 10 ^ 20
    → let t : Date = record { year = pos y; month = month; day = day } in
      read_date (format_date t) ≡ t
unfolding format_date
read_date-format_date y month day hy hm hd =
    read_parts (padded 4 y) (padded 2 month) (padded 2 day) (padded_dashless 4 y)
      (padded_dashless 2 month)
    ∙ cc (read_digits-padded 4 y hy, read_digits-padded 2 month hm, read_digits-padded 2 day hd)
