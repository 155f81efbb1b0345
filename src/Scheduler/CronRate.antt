-- ===== src/Scheduler/CronRate.antt =====
-- When a visit of `tick` enqueues a task on a cron expression.
use tlo.Prelude.{◌≡◌, refl, ◌∙◌, ℕ, ◌+◌, ◌*◌, ◌≤◌, ◌<◌, leb, Bool, true, false, some, arith, dec_lt}
use tlo.Prelude.Dict
use tlo.Errors.{ok, raise, tlo_error, config_error}
use tlo.Task.{Values}
use tlo.Registry.{TaskDef}
use tlo.Registry.Schedules.{cron}
use tlo.Cron.{CronSchedule, start_of, ten_years}
use tlo.Cron.Search.{matches, earliest, none_in_ten_years, next_run_after-FirstMatch}
use tlo.Cron
use tlo.System.{QueueProtocol, System}
use tlo.Scheduler.{submit_due, visit, should_run}
use tlo.Scheduler.Rate.{visit-should_run, visit-raise}

-- A minute that the expression matches, after the last run and within ten years of it.
abbrev pub IsNext : CronSchedule → ℕ → ℕ → Type 0
IsNext c last n =
    (last < n * 60_000_000) × ((n < start_of last + ten_years) × (matches c.schedule n ≡ true))

module _ (V : Values) (panic : Bool) (t : ℕ) (c : CronSchedule) (last : ℕ) where
  should_run_cron :
      (n : ℕ)
      → Cron.next_run_after c last ≡ ok n
      → should_run {V = V} panic t (cron c) (some last) ≡ ok (leb n t)
  unfolding should_run
  should_run_cron n e = rw (should_run, e) refl

  should_run_never :
      Cron.next_run_after c last ≡ raise (tlo_error config_error)
      → should_run {V = V} panic t (cron c) (some last) ≡ raise (tlo_error config_error)
  unfolding should_run
  should_run_never e = rw (should_run, e) refl

  reached :
      (n : ℕ)
      → IsNext c last n
      → n * 60_000_000 ≤ t
      → should_run {V = V} panic t (cron c) (some last) ≡ ok true
  reached n (after, (soon, hit)) h = elim (next_run_after-FirstMatch c last) [
    | earliest m e l w k silent ↦
        let due : m * 60_000_000 ≤ t = elim (dec_lt n m) [
          | yes p ↦ absurd (cc (silent n after p, hit))
          | no p ↦ omega arith
        ] in
        should_run_cron (m * 60_000_000) e ∙ ground arith
    | none_in_ten_years e silent ↦ absurd (cc (silent n after soon, hit))
  ]

  waits :
      (n : ℕ)
      → IsNext c last n
      → ((j : ℕ) → last < j * 60_000_000 → j * 60_000_000 ≤ t → matches c.schedule j ≡ false)
      → should_run {V = V} panic t (cron c) (some last) ≡ ok false
  waits n (after, (soon, hit)) none_yet = elim (next_run_after-FirstMatch c last) [
    | earliest m e l w k silent ↦ elim (dec_lt t (m * 60_000_000)) [
      | yes p ↦ should_run_cron (m * 60_000_000) e ∙ ground arith
      | no p ↦ absurd (cc (none_yet m l (omega arith), k))
    ]
    | none_in_ten_years e silent ↦ absurd (cc (silent n after soon, hit))
  ]

  refused :
      ((j : ℕ) → IsNext c last j → ⊥)
      → should_run {V = V} panic t (cron c) (some last) ≡ raise (tlo_error config_error)
  refused h = elim (next_run_after-FirstMatch c last) [
    | earliest m e l w k silent ↦ absurd (h m (l, (w, k)))
    | none_in_ten_years e silent ↦ should_run_never e
  ]

-- A visit at a time t to a task on a cron expression with a recorded last run submits the task, if
-- a minute that the expression matches within ten years lies after the last run and not after t. If
-- there is such a minute but none of those up to t matches, the visit changes nothing. If no minute
-- of the ten years matches, it changes nothing and raises TloConfigError.
pub visit_cron :
    {V : Values} {P : QueueProtocol V} (s : System P) (d : TaskDef V) (t : ℕ) (c : CronSchedule)
    (last : ℕ)
    → d.schedule ≡ some (cron c)
    → Dict.lookup d.name s.last_run ≡ some last
    → ((n : ℕ) → IsNext c last n → n * 60_000_000 ≤ t → visit t d s ≡ submit_due t d s)
      × (((n : ℕ)
            → IsNext c last n
            → ((j : ℕ) → last < j * 60_000_000 → j * 60_000_000 ≤ t → matches c.schedule j ≡ false)
            → visit t d s ≡ (s, ok tt))
          × (((n : ℕ) → ¬ IsNext c last n) → visit t d s ≡ (s, raise (tlo_error config_error))))
visit_cron {V} s d t c last e f = (
  λ n next h. visit-should_run s d t (cron c) true e (rw (f) (reached V panic t c last n next h)),
  (
    λ n next h. visit-should_run s d t (cron c) false e (rw (f) (waits V panic t c last n next h)),
    λ h.
        visit-raise s d t (cron c) (tlo_error config_error) e (rw (f) (refused V panic t c last h)),
  ),
)
  where
    panic : Bool
    panic = s.settings.panic_mode
