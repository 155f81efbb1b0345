-- ===== src/Registry/Schedules.antt =====
-- task_registry/task_def.py, the schedules: intervals, cron expressions, and those of callers.
use tlo.Prelude.{String, arith, ◌<◌, ◌≡◌, refl, ℕ, zero, suc, ◌+◌, ◌-◌, ◌*◌}
use tlo.Errors.{Result, ok, raise, tlo_error, config_error}
use tlo.Task.{Values}
use tlo.Cron.{CronSchedule}
use tlo.Cron

-- Python's integers: `negsuc n` is -(n + 1).
pub data ℤ : Type 0 where
  pos : ℕ → ℤ
  negsuc : ℕ → ℤ

-- `interval: timedelta | int`: seconds, or a timedelta in microseconds.
pub data Interval : Type 0 where
  seconds : ℤ → Interval
  timedelta : ℤ → Interval

-- `timedelta(seconds=n)`
unfoldable pub microseconds : ℤ → ℤ
microseconds (pos n) = pos (n * 1_000_000)
microseconds (negsuc n) = negsuc ((n + 1) * 1_000_000 - 1)

pub data Schedule (V : Values) : Type 0 where
  interval : ℕ → Schedule V
  cron : CronSchedule → Schedule V
  custom : V.Custom → Schedule V

module _ {V : Values} where
  -- `interval <= timedelta(0)` is refused.
  unfoldable pub check_positive : ℤ → Result (Schedule V)
  check_positive (pos zero) = raise (tlo_error config_error)
  check_positive (pos (suc n)) = ok (interval (suc n))
  check_positive (negsuc n) = raise (tlo_error config_error)

  pub check_positive_pos : (n : ℕ) → 0 < n → check_positive (pos n) ≡ ok (interval n)
  unfolding check_positive
  check_positive_pos zero h = absurd (omega arith)
  check_positive_pos (suc n) h = refl

  unfoldable pub interval_schedule : Interval → Result (Schedule V)
  unfolding check_positive microseconds
  interval_schedule (seconds n) = check_positive (microseconds n)
  interval_schedule (timedelta n) = check_positive n

  -- `CronSchedule.__init__`
  unfoldable pub cron_schedule : String → Result (Schedule V)
  cron_schedule expression = elim (V.parse_cron expression) [
    | ok s ↦ ok (cron (record { expression = expression; schedule = s }))
    | raise e ↦ raise e
  ]

  unfoldable pub next_run_after : Schedule V → ℕ → Result ℕ
  next_run_after (interval n) last_run = ok (last_run + n)
  next_run_after (cron c) last_run = Cron.next_run_after c last_run
  next_run_after (custom s) last_run = V.custom_next_run s last_run
