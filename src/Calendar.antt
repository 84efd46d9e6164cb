-- ===== src/Calendar.antt =====
-- The month of an instant in UTC, as `datetime.month` gives it in the proleptic Gregorian calendar.
use edufurthersf_be.Prelude.{
  ℕ, ◌+◌, ◌-◌, ◌*◌, ◌/◌, ◌%◌, ◌≤◌, ◌<◌, ◌≡◌, refl, arith, ltb, if◌then◌else◌,
}
use edufurthersf_be.Time.{Instant, days}

-- Days since the first of March of the year 0, in a cycle of 400 years that begins there.
day_of_era : Instant → ℕ
day_of_era now = (now / days 1 + 305) % 146097

-- The year of the cycle, counted from the first of March.
year_of_era : ℕ → ℕ
year_of_era doe = (doe + doe / 36524 - doe / 1460 - doe / 146096) / 365

-- Days since the first of March, and months since March.
day_of_year : ℕ → ℕ
day_of_year doe = let yoe = year_of_era doe in doe + yoe / 100 - (365 * yoe + yoe / 4)

month_of_day : ℕ → ℕ
month_of_day doy = let mp = (5 * doy + 2) / 153 in if ltb mp 10 then mp + 3 else mp - 9

unfoldable pub month : Instant → ℕ
unfolding day_of_era year_of_era day_of_year month_of_day
month now = month_of_day (day_of_year (day_of_era now))

doe_bound : (now : Instant) → day_of_era now < 146097
unfolding day_of_era
doe_bound now = omega arith

day_of_year-le : (doe : ℕ) → doe < 146097 → day_of_year doe ≤ 365
unfolding day_of_year year_of_era
day_of_year-le doe h = omega arith

month_of_day_range : (doy : ℕ) → doy ≤ 365 → (1 ≤ month_of_day doy) × (month_of_day doy ≤ 12)
unfolding month_of_day
month_of_day_range doy h = ground arith

pub month_range : (now : Instant) → (1 ≤ month now) × (month now ≤ 12)
unfolding month
month_range now =
    month_of_day_range (day_of_year (day_of_era now))
      (day_of_year-le (day_of_era now) (doe_bound now))

-- 2024-02-29, 2024-03-01 and 0001-01-01.
months : (month (days 738945) ≡ 2) × (month (days 738946) ≡ 3) × (month (days 1) ≡ 1)
unfolding month
months = (refl, refl, refl)
