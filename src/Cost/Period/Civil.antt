-- ===== src/Cost/Period/Civil.antt =====
-- A day and its date tell each other.
use mathlib.Core.Path.{subst}
use pok.Cost.Period.{is_leap, months, find_month, date_in}
use pok.Cost.Period.Years.{days_before, days_in_year, year, in_year, days_before-year, in_year-lt}
use pok.Prelude.Int.{pos}
use pok.Prelude.Lists.{length}
use pok.Prelude.Tests.{ltb, if◌then◌else◌, Bool-cases}
use pok.Prelude.{
  ℕ, zero, suc, ◌+◌, ◌-◌, ◌≤◌, ◌<◌, ◌≡◌, ◌∙◌, refl, inl, inr, Bool, true, false, List, [], ◌∷◌,
  arith,
}

-- The days in the first `k` months.
abbrev pub days_in_months : ℕ → List ℕ → ℕ
days_in_months zero lens = 0
days_in_months (suc k) [] = 0
days_in_months (suc k) (len ∷ lens) = len + days_in_months k lens

abbrev pub month_length : ℕ → List ℕ → ℕ
month_length j [] = 0
month_length zero (len ∷ lens) = len
month_length (suc j) (len ∷ lens) = month_length j lens

-- `n` days after the beginning stands the day with number `day` in month `j`, counted from 0.
record IsFound (first : ℕ) (lens : List ℕ) (n j day : ℕ) : Type 0 where
  found : find_month first lens n ≡ (first + j, day)
  counted : days_in_months j lens + day ≡ n + 1
  begun : 1 ≤ day
  ended : day ≤ month_length j lens
  listed : j < length lens

find_month-IsFound :
    (first : ℕ) (lens : List ℕ) (n : ℕ)
    → n < days_in_months (length lens) lens
    → (j : ℕ) × (day : ℕ) × IsFound first lens n j day
find_month-IsFound first [] n h = absurd (omega arith)
find_month-IsFound first (len ∷ lens) n h = elim (Bool-cases (ltb n len)) [
  | inl e ↦ (
    0,
    n + 1,
    record {
      found = unfold find_month in ground (arith, e);
      counted = omega arith;
      begun = omega arith;
      ended = ground (arith, e);
      listed = omega arith;
    },
  )
  | inr e ↦
      let (j, day, r) = find_month-IsFound (first + 1) lens (n - len) (ground (arith, e)) in
      (
        suc j,
        day,
        record {
          found = found_later first len lens n j day e r.found;
          counted = ground (arith, e, r.counted);
          begun = r.begun;
          ended = r.ended;
          listed = omega (arith, r.listed);
        },
      )
]
  where
    found_later :
        (first len : ℕ) (lens : List ℕ) (n j day : ℕ)
        → ltb n len ≡ false
        → find_month (first + 1) lens (n - len) ≡ (first + 1 + j, day)
        → find_month first (len ∷ lens) n ≡ (first + suc j, day)
    found_later first len lens n j day e h = unfold find_month in ground (arith, e, h)

-- A date from year 1 on that there is.
pub record IsDate (y month day : ℕ) : Type 0 where
  pub month_first : 1 ≤ month
  pub month_last : month ≤ 12
  pub day_first : 1 ≤ day
  pub day_last : day ≤ month_length (month - 1) (months (is_leap y))

-- The number of a day that a date names.
abbrev pub day_number : ℕ → ℕ → ℕ → ℕ
day_number y month day =
    days_before (y - 1) + days_in_months (month - 1) (months (is_leap y)) + day - 1

months_sum : (leap : Bool) → days_in_months 12 (months leap) ≡ (if leap then 366 else 365)
months_sum true = refl
months_sum false = refl

j_again : (j : ℕ) → j ≡ 1 + j - 1
j_again j = omega arith

date_in_lem :
    (d : ℕ)
    → let found = find_month 1 (months (is_leap (year d + 1))) (in_year d) in
      date_in d ≡ record { year = pos (year d + 1); month = found.0; day = found.1 }
unfolding date_in
date_in_lem d = refl

in_year-IsFound :
    (d : ℕ) → (j : ℕ) × (day : ℕ) × IsFound 1 (months (is_leap (year d + 1))) (in_year d) j day
in_year-IsFound d =
    find_month-IsFound 1 (months (is_leap (year d + 1))) (in_year d)
      (rw (months_sum (is_leap (year d + 1))) (unfold days_in_year in in_year-lt d))

-- A day has a date, which is in the calendar, and which has the day's number.
pub date_in-IsDate :
    (d : ℕ)
    → (y : ℕ) × (month : ℕ) × (day : ℕ) × (date_in d
        ≡ record { year = pos y; month = month; day = day })
      × (1 ≤ y)
      × IsDate y month day
      × (day_number y month day ≡ d)
date_in-IsDate d =
    let (j, day, r) = in_year-IsFound d in
    (
      year d + 1,
      1 + j,
      day,
      date_in_lem d ∙ rw r.found,
      omega arith,
      record {
        month_first = omega arith;
        month_last = omega (arith, r.listed);
        day_first = r.begun;
        day_last = month_again j day (months (is_leap (year d + 1))) r.ended;
      },
      number_again (year d) (in_year d) j day d (months (is_leap (year d + 1))) (days_before-year d)
          r.counted r.begun,
    )
  where
    month_again :
        (j day : ℕ) (lens : List ℕ)
        → day ≤ month_length j lens
        → day ≤ month_length (1 + j - 1) lens
    month_again j day lens h = subst (λ (k : ℕ). day ≤ month_length k lens) (j_again j) h

    number_again :
        (y n j day d : ℕ) (lens : List ℕ)
        → days_before y + n ≡ d
        → days_in_months j lens + day ≡ n + 1
        → 1 ≤ day
        → days_before (y + 1 - 1) + days_in_months (1 + j - 1) lens + day - 1 ≡ d
    number_again y n j day d lens h k b = rw (← j_again j) (omega (arith, h, k, b))
