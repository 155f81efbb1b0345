-- ===== src/Registry/Registration.antt =====
-- What registration stores, and what it refuses.
use tlo.Prelude.{
  ◌⊎◌, String, ℕ, zero, suc, ◌+◌, ◌<◌, ◌*◌, ◌≡◌, refl, Option, none, some, arith, inl, inr,
}
use tlo.Prelude.Dict
use tlo.Prelude.Dict.{Dict}
use tlo.Errors.{ok, raise, Exception, tlo_error, config_error}
use tlo.Task.{Values}
use tlo.Queue.Order.{name_or_default}
use tlo.Registry.{TaskDef, Hints, register, store_task}
use tlo.Registry.Schedules.{
  check_positive_pos, Schedule, interval, Interval, seconds, timedelta, pos, negsuc,
  interval_schedule, next_run_after,
}

module _ {V : Values} (h : Hints V) (func : V.Func) (tasks : Dict (TaskDef V)) where
  abbrev pub task_name : String
  task_name = name_or_default h.name (V.func_name func)

  abbrev definition : Option (Schedule V) → TaskDef V
  definition s = record {
    func = func;
    name = task_name;
    extra = elim h.extra [ some e ↦ e | none ↦ V.no_extra ];
    schedule = s;
    exclusive_template = h.exclusive;
  }

  -- A registration that raises leaves the registered tasks as they were.
  pub register_failed :
      (after : Dict (TaskDef V)) (e : Exception)
      → register h func tasks ≡ (after, raise e)
      → after ≡ tasks
  unfolding register store_task
  register_failed after e r = ground arith

interval_cases :
    {V : Values} (i : Interval)
    → ((n : ℕ) × (0 < n) × (interval_schedule {V = V} i ≡ ok (interval n)))
      ⊎ (interval_schedule {V = V} i ≡ raise (tlo_error config_error))
unfolding interval_schedule
interval_cases (seconds (pos zero)) = inr refl
interval_cases (seconds (pos (suc n))) =
    inl (suc n * 1_000_000, omega arith, check_positive_pos _ (omega arith))
interval_cases (seconds (negsuc n)) = inr refl
interval_cases (timedelta (pos zero)) = inr refl
interval_cases (timedelta (pos (suc n))) = inl (suc n, omega arith, refl)
interval_cases (timedelta (negsuc n)) = inr refl

-- If a schedule can be made from an interval, its next run after any time is strictly later, with
-- datetimes that have no last one.
pub interval_schedule-later :
    {V : Values} (i : Interval) (s : Schedule V) (last_run : ℕ)
    → interval_schedule i ≡ ok s
    → (next_run : ℕ) × (next_run_after s last_run ≡ ok next_run) × (last_run < next_run)
unfolding interval_schedule next_run_after
interval_schedule-later {V} i s last_run e = elim (interval_cases {V = V} i) [
  | inl (n, h, f) ↦ (last_run + n, ground arith, omega arith)
  | inr f ↦ absurd (ground arith)
]
