-- ===== src/Cost/Period/Asked.antt =====
-- What Cost Explorer is asked for.
use mathlib.Core.Path.{subst}
use pok.Cost.Period.Civil.{IsDate, day_number, date_in-IsDate, month_length, days_in_months}
use pok.Cost.Period.Years.{days_before}
use pok.Cost.Period.Printed.{read_date, read_date-format_date}
use pok.Cost.Period.{Date, is_leap, months, date_of_day, format_date, end_day, start_day, period}
use pok.Prelude.Bytes.{Bytes}
use pok.Prelude.Int.{pos, pos_part, ◌-ℤ◌}
use pok.Prelude.Lists.{All}
use pok.Prelude.{
  Bool, true, false, List, [], ◌∷◌, sym, zero, suc, ℕ, ◌+◌, ◌-◌, ◌*◌, ◌^◌, ◌≤◌, ◌<◌, ◌≡◌, arith,
}

-- A date of the calendar, from year 1 on, with this day number.
abbrev pub HasNumber : Date → ℕ → Type 0
HasNumber t d =
    IsDate (pos_part t.year) t.month t.day
    × (1 ≤ pos_part t.year)
    × (day_number (pos_part t.year) t.month t.day ≡ d)

-- The text is such a date.
abbrev pub Names : Bytes → ℕ → Type 0
Names text d = HasNumber (read_date text) d

year-lt : (y rest d : ℕ) → 1 ≤ y → days_before (y - 1) + rest - 1 ≡ d → d < 2 ^ 63 → y < 10 ^ 20
year-lt y rest d h e b = omega arith

All-month_length : (j : ℕ) (lens : List ℕ) → All (λ len. len ≤ 31) lens → month_length j lens ≤ 31
All-month_length j [] a = omega arith
All-month_length zero (len ∷ lens) a = a.0
All-month_length (suc j) (len ∷ lens) a = All-month_length j lens a.1

month_length-le : (j : ℕ) (leap : Bool) → month_length j (months leap) ≤ 31
month_length-le j true = All-month_length j (months true) (omega arith)
month_length-le j false = All-month_length j (months false) (omega arith)

format_date-Names : (d : ℕ) → d < 2 ^ 63 → Names (format_date (date_of_day (pos d))) d
unfolding date_of_day
format_date-Names d h =
    let (y, month, day, e, first, dated, counted) = date_in-IsDate d in
    let same =
      read_date-format_date y month day
        (year-lt y (days_in_months (month - 1) (months (is_leap y)) + day) d first
          (omega (arith, counted)) h)
        (omega (arith, dated.month_last))
        (omega (arith, dated.day_last, month_length-le (month - 1) (is_leap y))) in
    rw e (subst (λ t. HasNumber t d) (sym same) (dated, first, counted))

sub_days : (e days : ℕ) → days ≤ e → pos e -ℤ pos days ≡ pos (e - days)
unfolding ◌-ℤ◌
sub_days e days h = ground arith

-- The period that Cost Explorer is asked for is two dates of the calendar: the end is the day of
-- `now` in UTC, so that it holds completed days only, and the start is as many days before as
-- ACTUAL_DAYS says, if that is in year 1 or later.
pub period-Names :
    (days now : ℕ)
    → days ≤ end_day now
    → now < 2 ^ 63
    → (end : ℕ) × Names (period (pos days) now).end end
      × Names (period (pos days) now).start (end - days)
      × ((end - 719162) * 86400 ≤ now)
      × (now < (end - 719162 + 1) * 86400)
unfolding period start_day end_day
period-Names days now h b = (
  end_day now,
  format_date-Names (end_day now) (omega arith),
  rw (sub_days (end_day now) days h) (format_date-Names (end_day now - days) (omega arith)),
  omega arith,
  omega arith,
)
