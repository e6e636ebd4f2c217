-- ===== src/Cost/Period/Tests.antt =====
-- Days that package time is known for.
use pok.Cost.Period.{date_of_day, format_date, padded, period}
use pok.Prelude.Bytes.{bytes}
use pok.Prelude.Int.{pos, negsuc}
use pok.Prelude.{◌≡◌, refl}

epoch : format_date (date_of_day (pos 719162)) ≡ bytes "1970-01-01"
unfolding format_date padded date_of_day
epoch = refl

leap_day : format_date (date_of_day (pos 738944)) ≡ bytes "2024-02-29"
unfolding format_date padded date_of_day
leap_day = refl

before_year_1 : format_date (date_of_day (negsuc 0)) ≡ bytes "0000-12-31"
unfolding format_date padded date_of_day
before_year_1 = refl

two_days :
    period (pos 2) 1709337600 ≡ record { start = bytes "2024-02-29"; end = bytes "2024-03-02" }
unfolding period
two_days = refl
