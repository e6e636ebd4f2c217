-- ===== src/Cost/Period.antt =====
-- The period that `EmitActual` of apps/awscost/poller.go asks Cost Explorer for: package time's
-- arithmetic on days and its format "2006-01-02". A day is counted from 1 January of year 1, and
-- `now` is a Unix time. Nothing overflows while ACTUAL_DAYS is less than a billion either way.
pub mod Years
pub mod Civil
pub mod Printed
pub mod Asked
mod Tests
use pok.Prelude.Decimal.{digits}
use pok.Prelude.Bytes.{Bytes, bytes}
use pok.Prelude.Int.{ℤ, pos, negsuc, pos_part, neg_part, ◌+ℤ◌, ◌-ℤ◌}
use pok.Prelude.Lists.{length}
use pok.Prelude.Tests.{ltb, nat_beq, if◌then◌else◌}
use pok.Prelude.{
  ℕ, zero, suc, ◌+◌, ◌-◌, ◌*◌, ◌/◌, ◌%◌, Bool, true, false, ◌&&◌, ◌||◌, not, List, [], ◌∷◌, ◌++◌,
}

abbrev pub is_leap : ℕ → Bool
is_leap y = nat_beq (y % 4) 0 && (not (nat_beq (y % 100) 0) || nat_beq (y % 400) 0)

-- The lengths of the months, from January on.
abbrev pub months : Bool → List ℕ
months leap = 31 ∷ (if leap then 29 else 28) ∷ 31 ∷ 30 ∷ 31 ∷ 30 ∷ 31 ∷ 31 ∷ 30 ∷ 31 ∷ 30 ∷ 31 ∷ []

pub record Date : Type 0 where
  pub year : ℤ
  pub month : ℕ
  pub day : ℕ

-- The month with number `month` or a later one, and the day in it, `n` days after its beginning.
unfoldable pub find_month : ℕ → List ℕ → ℕ → ℕ × ℕ
find_month month [] n = (month, n + 1)
find_month month (len ∷ lens) n =
    let later = find_month (month + 1) lens (n - len) in if ltb n len then (month, n + 1) else later

-- The fourth century of 400 years, and the fourth year of 4, have the day more.
abbrev pub at_most_3 : ℕ → ℕ
at_most_3 n = if ltb n 3 then n else 3

-- The year before that of a day, and the day in that year, counted from 0.
unfoldable pub year_of : ℕ → ℕ × ℕ
year_of d =
    let in_400 = d % 146097 in
    let n100 = at_most_3 (in_400 / 36524) in
    let in_100 = in_400 - n100 * 36524 in
    let in_4 = in_100 % 1461 in
    let n1 = at_most_3 (in_4 / 365) in
    (d / 146097 * 400 + n100 * 100 + in_100 / 1461 * 4 + n1, in_4 - n1 * 365)

unfoldable pub date_in : ℕ → Date
unfolding find_month year_of
date_in d =
    let (y, n) = year_of d in
    let (month, day) = find_month 1 (months (is_leap (y + 1))) n in
    record { year = pos (y + 1); month = month; day = day }

-- 400 years have 146097 days: a day before year 1 is found so many years later.
unfoldable pub date_of_day : ℤ → Date
unfolding date_in ◌-ℤ◌ ◌+ℤ◌
date_of_day (pos d) = date_in d
date_of_day (negsuc d) =
    let cycles = d / 146097 + 1 in
    let later = date_in (cycles * 146097 - (d + 1)) in
    record later { year = later.year -ℤ pos (cycles * 400) }

-- Zeros before a number of fewer digits.
unfoldable pub zeros : ℕ → Bytes
zeros zero = []
zeros (suc n) = b'0' ∷ zeros n

unfoldable pub padded : ℕ → ℕ → Bytes
unfolding zeros digits
padded width n = let s = digits 20 n in zeros (width - length s) ++ s

unfoldable pub padded_year : ℤ → Bytes
padded_year (pos y) = padded 4 y
padded_year (negsuc y) = b'-' ∷ padded 4 (y + 1)

-- Format("2006-01-02")
unfoldable pub format_date : Date → Bytes
unfolding padded_year
format_date t = padded_year t.year ++ bytes "-" ++ padded 2 t.month ++ bytes "-" ++ padded 2 t.day

-- now.UTC().Truncate(24 * time.Hour), as a day: 1 January 1970 is day 719162.
unfoldable pub end_day : ℕ → ℕ
end_day now = now / 86400 + 719162

-- end.AddDate(0, 0, -actual_days)
unfoldable pub start_day : ℤ → ℕ → ℤ
unfolding end_day ◌-ℤ◌
start_day actual_days now = pos (end_day now) -ℤ actual_days

pub record Period : Type 0 where
  pub start : Bytes
  pub end : Bytes

unfoldable pub period : ℤ → ℕ → Period
unfolding start_day end_day date_of_day format_date padded
period actual_days now = record {
  start = format_date (date_of_day (start_day actual_days now));
  end = format_date (date_of_day (pos (end_day now)));
}
