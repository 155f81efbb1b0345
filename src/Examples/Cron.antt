-- ===== src/Examples/Cron.antt =====
-- The search for the next run, at a schedule for each Monday.
use tlo.Prelude.{ℕ, ◌+◌, ◌*◌, ◌≡◌, ◌≤◌, ◌<◌, refl, false, none, some, [], ◌∷◌, text_dec}
use tlo.Prelude.Dict
use tlo.Errors.{ok, raise, tlo_error, config_error}
use tlo.Calendar.{date, date_of, next_day, days_in_month, is_leap}
use tlo.Cron.{CronSchedule, next_run_after, search, advance, skips_day, member, same}
use tlo.Cron.Search.{FirstMatch, next_run_after-FirstMatch, matches}
use tlo.Registry.{TaskDef}
use tlo.Registry.Schedules.{cron}
use tlo.System.{System}
use tlo.System.Queues.{simple_queue}
use tlo.Scheduler.{visit, submit_due}
use tlo.Scheduler.CronRate.{IsNext, visit_cron}
use tlo.Examples.{monday, values, system}

abbrev each_monday : CronSchedule
each_monday = record { expression = "0 9 * * 1"; schedule = monday }

next_run_after-FirstMatch_example : FirstMatch each_monday 0
next_run_after-FirstMatch_example = next_run_after-FirstMatch each_monday 0

-- The first Monday from 1970-01-01 on is the fifth day; the search goes on by days, hours, minutes.
first_monday : next_run_after each_monday 0 ≡ ok (((4 * 24 + 9) * 60) * 60_000_000)
unfolding next_run_after search advance skips_day member same date_of next_day days_in_month is_leap
first_monday = refl

leap_day : date_of 789 ≡ date 1972 2 29
unfolding date_of next_day days_in_month is_leap
leap_day = refl

abbrev weekly : TaskDef values
weekly = record {
  func = "report";
  name = "weekly";
  extra = tt;
  schedule = some (cron each_monday);
  exclusive_template = none;
}

abbrev weekly_system : System (simple_queue values)
weekly_system = record system { last_run = ("weekly", 0) ∷ [] }

visit_cron_example :
    ((n : ℕ)
      → IsNext each_monday 0 n
      → n * 60_000_000 ≤ 400_000_000_000
      → visit 400_000_000_000 weekly weekly_system
        ≡ submit_due 400_000_000_000 weekly weekly_system)
    × (((n : ℕ)
          → IsNext each_monday 0 n
          → ((j : ℕ)
              → 0 < j * 60_000_000
              → j * 60_000_000 ≤ 400_000_000_000
              → matches monday j ≡ false)
          → visit 400_000_000_000 weekly weekly_system ≡ (weekly_system, ok tt))
        × (((n : ℕ) → ¬ IsNext each_monday 0 n)
            → visit 400_000_000_000 weekly weekly_system
              ≡ (weekly_system, raise (tlo_error config_error))))
unfolding Dict.lookup text_dec
visit_cron_example = visit_cron weekly_system weekly 400_000_000_000 each_monday 0 refl refl
