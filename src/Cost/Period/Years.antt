-- ===== src/Cost/Period/Years.antt =====
-- The year of a day, and how long it is.
use pok.Cost.Period.{is_leap, at_most_3, year_of}
use pok.Prelude.Tests.{nat_beq, if◌then◌else◌}
use pok.Prelude.{
  ℕ, ◌+◌, ◌-◌, ◌*◌, ◌/◌, ◌%◌, ◌≤◌, ◌<◌, ◌≡◌, ◌⊎◌, refl, Bool, true, false, ◌&&◌, ◌||◌, not, arith,
}

-- The days in `y` years, with a leap day every 4 years, not every 100 years, but every 400 years.
abbrev pub days_before : ℕ → ℕ
days_before y = y * 365 + y / 4 - y / 100 + y / 400

unfoldable pub days_in_year : ℕ → ℕ
days_in_year y = if is_leap y then 366 else 365

year_parts :
    (q a c e n : ℕ)
    → a ≤ 3
    → c ≤ 24
    → e ≤ 3
    → days_before (q * 400 + a * 100 + c * 4 + e) + n
      ≡ q * 146097 + a * 36524 + c * 1461 + e * 365 + n
year_parts q a c e n ha hc he = omega arith

leap_parts :
    (q a c e : ℕ)
    → a ≤ 3
    → c ≤ 24
    → e ≤ 3
    → is_leap (q * 400 + a * 100 + c * 4 + e + 1)
      ≡ (nat_beq e 3 && (not (nat_beq c 24) || nat_beq a 3))
leap_parts q a c e ha hc he = ground arith

-- The four divisions, each of what the one before left.
module _ (d : ℕ) where
  abbrev century : ℕ
  century = at_most_3 (d % 146097 / 36524)

  abbrev in_century : ℕ
  in_century = d % 146097 - century * 36524

  abbrev year_in_4 : ℕ
  year_in_4 = at_most_3 (in_century % 1461 / 365)

  abbrev pub in_year : ℕ
  in_year = in_century % 1461 - year_in_4 * 365

  abbrev pub year : ℕ
  year = d / 146097 * 400 + century * 100 + in_century / 1461 * 4 + year_in_4

  year_of_lem : year_of d ≡ (year, in_year)
  unfolding year_of
  year_of_lem = refl

  century-le : century ≤ 3
  century-le = ground arith

  century_split : d % 146097 ≡ century * 36524 + in_century
  century_split = ground arith

  in_century-le : in_century ≤ 36524
  in_century-le = ground arith

  in_century-lt : (nat_beq century 3 ≡ false) → in_century < 36524
  in_century-lt h = ground arith

  year_in_4-le : year_in_4 ≤ 3
  year_in_4-le = ground arith

  year_split : in_century % 1461 ≡ year_in_4 * 365 + in_year
  year_split = ground arith

  in_year-le : (in_year ≤ 365) × ((nat_beq year_in_4 3 ≡ true) ⊎ (in_year < 365))
  in_year-le = ground arith

  four_years-le : in_century / 1461 ≤ 24
  four_years-le = omega (arith, in_century-le)

  pub days_before-year : days_before year + in_year ≡ d
  days_before-year = omega (
    arith,
    year_parts (d / 146097) century (in_century / 1461) year_in_4 in_year century-le four_years-le
        year_in_4-le,
    century_split,
    year_split,
  )

  short_century :
      nat_beq (in_century / 1461) 24 ≡ true
      → nat_beq century 3 ≡ false
      → nat_beq year_in_4 3 ≡ true
      → in_year < 365
  short_century h k e =
      omega
        (arith, in_century-lt k, year_split, nat_eq (in_century / 1461) 24 h, nat_eq year_in_4 3 e)
    where
      nat_eq : (m n : ℕ) → nat_beq m n ≡ true → m ≡ n
      nat_eq m n h = ground arith

  pub in_year-lt : in_year < days_in_year (year + 1)
  unfolding days_in_year
  in_year-lt =
      rw
        (leap_parts (d / 146097) century (in_century / 1461) year_in_4 century-le four_years-le
          year_in_4-le)
        (cases_lt (nat_beq year_in_4 3) (nat_beq (in_century / 1461) 24) (nat_beq century 3) in_year
          in_year-le short_century)
    where
      cases_lt :
          (last full fourth : Bool) (n : ℕ)
          → (n ≤ 365) × ((last ≡ true) ⊎ (n < 365))
          → (full ≡ true → fourth ≡ false → last ≡ true → n < 365)
          → n < (if last && (not full || fourth) then 366 else 365)
      cases_lt true true true n h f = omega arith
      cases_lt true true false n h f = f refl refl refl
      cases_lt true false true n h f = omega arith
      cases_lt true false false n h f = omega arith
      cases_lt false full fourth n h f = ground arith
