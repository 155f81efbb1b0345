-- ===== src/Cron.antt =====
-- task_registry/task_def.py, CronSchedule: the search for the next minute that a cron expression
-- matches.
pub mod Search
use tlo.Prelude.{
  String, ℕ, zero, suc, ◌+◌, ◌*◌, ◌/◌, ◌%◌, Bool, true, false, not, ◌&&◌, ◌||◌, Option, none, some,
  List, [], ◌∷◌, ◌==◌, ltb, if◌then◌else◌,
}
use tlo.Errors.{Result, ok, raise, tlo_error, config_error, user}
use tlo.Calendar.{Date, date, date_at, hour_at, minute_at, weekday_at, minutes_of, day_number}

-- What `parse_cron` makes of the five fields of an expression.
pub record CronFields : Type 0 where
  pub minute : List ℕ
  pub hour : List ℕ
  pub day_of_month : List ℕ
  pub month : List ℕ
  pub day_of_week : List ℕ

pub record CronSchedule : Type 0 where
  pub expression : String
  pub schedule : CronFields

-- `x in xs`, and `==` and `range` of tuples.
unfoldable pub member : ℕ → List ℕ → Bool
member x [] = false
member x (y ∷ ys) = (x == y) || member x ys

unfoldable pub same : List ℕ → List ℕ → Bool
same [] [] = true
same (x ∷ xs) (y ∷ ys) = (x == y) && same xs ys
same _ _ = false

abbrev range_from : ℕ → ℕ → List ℕ
range_from x zero = []
range_from x (suc n) = x ∷ range_from (suc x) n

abbrev pub all_days_of_month : List ℕ
all_days_of_month = range_from 1 31

abbrev pub all_days_of_week : List ℕ
all_days_of_week = range_from 0 7

-- The tests on the day of a minute: is it to be passed over?
unfoldable pub skips_day : CronFields → ℕ → Bool
unfolding member same
skips_day s n =
    let cron_dow = (weekday_at n + 1) % 7 in
    let dom_matches = member (date_at n).day s.day_of_month in
    let dow_matches = member cron_dow s.day_of_week in
    let dom_wildcard = same s.day_of_month all_days_of_month in
    let dow_wildcard = same s.day_of_week all_days_of_week in
    if dom_wildcard && dow_wildcard
    then false
    else (dom_wildcard && not dow_matches)
      || ((dow_wildcard && not dom_matches) || not (dom_matches || dow_matches))

-- A round of the loop at a minute: where it goes on, or nothing if it returns the minute.
unfoldable pub advance : CronFields → ℕ → Option ℕ
advance s n =
    let d = date_at n in
    if not (member d.month s.month)
    then some (
        if d.month == 12
        then minutes_of (date (d.year + 1) 1 1)
        else minutes_of (date d.year (d.month + 1) 1))
    else if skips_day s n
    then some ((n / 1440 + 1) * 1440)
    else if not (member (hour_at n) s.hour)
    then some ((n / 60 + 1) * 60)
    else if not (member (minute_at n) s.minute)
    then some (n + 1)
    else none

-- `while current < limit`; `none` if the fuel runs out.
unfoldable pub search : CronFields → ℕ → ℕ → ℕ → Option (Result ℕ)
search s limit zero n = none
search s limit (suc fuel) n = elim (ltb n limit) [
  | false ↦ some (raise (tlo_error config_error))
  | true ↦ elim (advance s n) [ none ↦ some (ok n) | some m ↦ search s limit fuel m ]
]

-- `timedelta(days=365 * 10)` and a minute, in microseconds' place in minutes.
abbrev pub ten_years : ℕ
ten_years = 365 * 10 * 1440

-- `last_run.replace(second=0, microsecond=0) + timedelta(minutes=1)`
abbrev pub start_of : ℕ → ℕ
start_of last_run = last_run / 60_000_000 + 1

unfoldable pub next_run_after : CronSchedule → ℕ → Result ℕ
next_run_after c last_run =
    let start = start_of last_run in
    elim (search c.schedule (start + ten_years) (suc ten_years) start) [
      | some (ok n) ↦ ok (n * 60_000_000)
      | some (raise e) ↦ raise e
      | none ↦ raise (user "out of fuel")
    ]
