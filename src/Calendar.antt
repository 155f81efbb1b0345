-- ===== src/Calendar.antt =====
-- Python's datetime in UTC, as far as the package computes with its fields: days by their number
-- since 1970-01-01 and minutes by theirs.
pub mod Days
use tlo.Prelude.{
  ℕ, zero, suc, ◌+◌, ◌-◌, ◌*◌, ◌/◌, ◌%◌, Bool, ◌&&◌, not, ◌||◌, ◌==◌, ltb, if◌then◌else◌,
}

-- `datetime.date`
pub record Date : Type 0 where
  pub day : ℕ
  pub month : ℕ
  pub year : ℕ

abbrev pub date : ℕ → ℕ → ℕ → Date
date year month day = record { day = day; month = month; year = year }

-- `year % 4 == 0 and (year % 100 != 0 or year % 400 == 0)`
unfoldable pub is_leap : ℕ → Bool
is_leap year = (year % 4 == 0) && (not (year % 100 == 0) || (year % 400 == 0))

unfoldable pub days_in_month : ℕ → ℕ → ℕ
days_in_month year month =
    if month == 2
    then 28 + (if is_leap year then 1 else 0)
    else 31 - (if ltb month 8 then (month + 1) % 2 else month % 2)

unfoldable pub days_in_year : ℕ → ℕ
days_in_year year = 365 + (if is_leap year then 1 else 0)

-- `+ timedelta(days=1)`
unfoldable pub next_day : Date → Date
next_day d =
    if ltb d.day (days_in_month d.year d.month)
    then record d { day = d.day + 1 }
    else if ltb d.month 12
    then date d.year (d.month + 1) 1
    else date (d.year + 1) 1 1

unfoldable pub date_of : ℕ → Date
date_of zero = date 1970 1 1
date_of (suc n) = next_day (date_of n)

-- The days of the first years from 1970 on, and of the months of a year.
unfoldable pub days_of_years : ℕ → ℕ
days_of_years zero = 0
days_of_years (suc k) = days_of_years k + days_in_year (1970 + k)

unfoldable pub days_of_months : ℕ → ℕ → ℕ
days_of_months year zero = 0
days_of_months year (suc k) = days_of_months year k + days_in_month year (suc k)

-- The number of the day of a date from 1970 on.
unfoldable pub day_number : Date → ℕ
day_number d = days_of_years (d.year - 1970) + days_of_months d.year (d.month - 1) + (d.day - 1)

-- A minute's fields.
abbrev pub date_at : ℕ → Date
date_at n = date_of (n / 1440)

abbrev pub hour_at : ℕ → ℕ
hour_at n = n / 60 % 24

abbrev pub minute_at : ℕ → ℕ
minute_at n = n % 60

-- `weekday()`: Monday is 0, and 1970-01-01 was a Thursday.
abbrev pub weekday_at : ℕ → ℕ
weekday_at n = (n / 1440 + 3) % 7

-- The first minute of a date: its fields with hour=0 and minute=0.
abbrev pub minutes_of : Date → ℕ
minutes_of d = day_number d * 1440
