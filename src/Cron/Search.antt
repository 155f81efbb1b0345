-- ===== src/Cron/Search.antt =====
-- The search against its specification: the first minute after the last run that matches.
use tlo.Prelude.{
  ℕ, zero, suc, ◌+◌, ◌-◌, ◌*◌, ◌/◌, ◌%◌, ◌≤◌, ◌<◌, ◌≡◌, refl, sym, ap, ◌∙◌, Bool, true, false, not,
  ◌&&◌, ◌||◌, Option, none, some, ◌==◌, ltb, if◌then◌else◌, arith, Bool-cases, dec_lt, inl, inr,
}
use tlo.Errors.{Result, ok, raise, tlo_error, config_error}
use tlo.Calendar.{
  Date, date, date_at, date_of, hour_at, minute_at, weekday_at, day_number, days_in_month,
}
use tlo.Calendar.Days.{date_of-IsValid, month_after, year_after, day_number-date_of, date_of-add}
use tlo.Cron.{
  CronFields, CronSchedule, member, same, all_days_of_month, all_days_of_week, skips_day, advance,
  search, ten_years, start_of, next_run_after,
}

-- When an expression matches a minute: its month, hour and minute are named, and so is its day. The
-- day is named by the fields for the day of the month and of the week, where a field that holds
-- every day asks for nothing, and if both ask, one of them is enough.
pub day_matches : CronFields → ℕ → Bool
day_matches s n =
    let dom = member (date_at n).day s.day_of_month in
    let dow = member ((weekday_at n + 1) % 7) s.day_of_week in
    if same s.day_of_month all_days_of_month
    then (if same s.day_of_week all_days_of_week then true else dow)
    else if same s.day_of_week all_days_of_week
    then dom
    else dom || dow

pub matches : CronFields → ℕ → Bool
matches s n =
    member (date_at n).month s.month
    && (day_matches s n && (member (hour_at n) s.hour && member (minute_at n) s.minute))

module _ (s : CronFields) where
  day_matches-skips_day : (n : ℕ) → day_matches s n ≡ not (skips_day s n)
  unfolding day_matches skips_day
  day_matches-skips_day n = ground arith

  -- No minute from one to before another matches.
  abbrev pub Silent : ℕ → ℕ → Type 0
  Silent a b = (j : ℕ) → a ≤ j → j < b → matches s j ≡ false

  month_silent : (j : ℕ) → member (date_at j).month s.month ≡ false → matches s j ≡ false
  unfolding matches
  month_silent j h = ground arith

  day_silent : (j : ℕ) → day_matches s j ≡ false → matches s j ≡ false
  unfolding matches
  day_silent j h = ground arith

  hour_silent : (j : ℕ) → member (hour_at j) s.hour ≡ false → matches s j ≡ false
  unfolding matches
  hour_silent j h = ground arith

  minute_silent : (j : ℕ) → member (minute_at j) s.minute ≡ false → matches s j ≡ false
  unfolding matches
  minute_silent j h = ground arith

  found :
      (n : ℕ)
      → member (date_at n).month s.month ≡ true
      → day_matches s n ≡ true
      → member (hour_at n) s.hour ≡ true
      → member (minute_at n) s.minute ≡ true
      → matches s n ≡ true
  unfolding matches
  found n a b c d = ground arith

  module _ (n : ℕ) where
    abbrev today : Date
    today = date_at n

    -- Up to the first day of the next month the month stays.
    month_stays :
        (m : ℕ)
        → m + today.day ≡ n / 1440 + (days_in_month today.year today.month + 1)
        → (n < m * 1440) × ((j : ℕ) → n ≤ j → j < m * 1440 → (date_at j).month ≡ today.month)
    month_stays m e = (
      omega (arith, (date_of-IsValid (n / 1440)).day_in),
      λ j h k.
          let i = j / 1440 - n / 1440 in
          let p : n / 1440 + i ≡ j / 1440 = omega arith in
          ap (λ x. (date_of x).month) (sym p)
          ∙ ap (λ d. d.month) (date_of-add (n / 1440) i (omega (arith, p))),
    )

  -- A round of the loop: it stops at a minute that matches, or goes on behind minutes that do not.
  data Advances (n : ℕ) : Type 0 where
    stops : advance s n ≡ none → matches s n ≡ true → Advances n
    goes : (m : ℕ) → advance s n ≡ some m → n < m → Silent n m → Advances n

  day_stays : (n j : ℕ) → n ≤ j → j < (n / 1440 + 1) * 1440 → j / 1440 ≡ n / 1440
  day_stays n j h k = omega arith

  day_goes : (n j : ℕ) → j / 1440 ≡ n / 1440 → day_matches s n ≡ false → matches s j ≡ false
  unfolding day_matches
  day_goes n j e h = day_silent j (rw (e) h)

  month_goes :
      (n m : ℕ)
      → m + (date_at n).day ≡ n / 1440 + (days_in_month (date_at n).year (date_at n).month + 1)
      → advance s n ≡ some (m * 1440)
      → member (date_at n).month s.month ≡ false
      → Advances n
  month_goes n m e a h =
      let (l, stays) = month_stays n m e in
      goes (m * 1440) a l (λ j p q. month_silent j (ap (λ x. member x s.month) (stays j p q) ∙ h))

  advances : (n : ℕ) → Advances n
  unfolding advance
  advances n =
      let d = date_at n in
      let v = date_of-IsValid (n / 1440) in
      let number = day_number-date_of (n / 1440) in
      elim (Bool-cases (member d.month s.month)) [
        | inr e ↦ elim (Bool-cases (d.month == 12)) [
          | inl f ↦
              month_goes n (day_number (date (d.year + 1) 1 1))
                (ground (arith, year_after d v, number, f)) (rw (e, f) refl) e
          | inr f ↦
              month_goes n (day_number (date d.year (d.month + 1) 1))
                (omega (arith, month_after d v, number)) (rw (e, f) refl) e
        ]
        | inl e ↦ elim (Bool-cases (skips_day s n)) [
          | inl f ↦
              goes ((n / 1440 + 1) * 1440) (rw (e, f) refl) (omega arith)
                (λ j p q. day_goes n j (day_stays n j p q) (rw (day_matches-skips_day n, f) refl))
          | inr f ↦ elim (Bool-cases (member (hour_at n) s.hour)) [
            | inr g ↦ goes ((n / 60 + 1) * 60) (rw (e, f, g) refl) (omega arith) (λ j p q.
                let same_hour : j / 60 ≡ n / 60 = omega arith in
                hour_silent j (ap (λ x. member (x % 24) s.hour) same_hour ∙ g))
            | inl g ↦ elim (Bool-cases (member (minute_at n) s.minute)) [
              | inr k ↦ goes (n + 1) (rw (e, f, g, k) refl) (omega arith) (λ j p q.
                  let here : j ≡ n = omega arith in
                  minute_silent j (ap (λ x. member (x % 60) s.minute) here ∙ k))
              | inl k ↦
                  stops (rw (e, f, g, k) refl)
                    (found n e (rw (day_matches-skips_day n, f) refl) g k)
            ]
          ]
        ]
      ]

  -- What a search may give: the first minute that matches, or the error of a schedule that has none.
  data Finds (n limit : ℕ) (r : Option (Result ℕ)) : Type 0 where
    first :
        (m : ℕ)
        → r ≡ some (ok m)
        → n ≤ m
        → m < limit
        → matches s m ≡ true
        → Silent n m
        → Finds n limit r
    never : r ≡ some (raise (tlo_error config_error)) → Silent n limit → Finds n limit r

  join : (n m k : ℕ) → Silent n m → Silent m k → Silent n k
  join n m k a b j p q = elim (dec_lt j m) [ yes h ↦ a j p h | no h ↦ b j (omega arith) q ]

  finds : (limit fuel n : ℕ) → 0 < fuel → limit < n + fuel → Finds n limit (search s limit fuel n)
  unfolding search
  finds limit zero n z h = absurd (omega arith)
  finds limit (suc fuel) n z h = elim (Bool-cases (ltb n limit)) [
    | inr e ↦ never (rw (search, e) refl) (λ j p q. absurd (ground (arith, e)))
    | inl e ↦
        let below : n < limit = ground (arith, e) in
        elim (advances n) [
          | stops a here ↦
              first n (rw (search, e, a) refl) (omega arith) below here
                (λ j p q. absurd (omega arith))
          | goes m a l silent ↦ elim (finds limit fuel m (omega arith) (omega arith)) [
            | first k r p q found later ↦
                first k (rw (search, e, a) r) (omega arith) q found (join n m k silent later)
            | never r later ↦ never (rw (search, e, a) r) (join n m limit silent later)
          ]
        ]
  ]

-- The next run of a schedule after a time, in microseconds.
pub data FirstMatch (c : CronSchedule) (last_run : ℕ) : Type 0 where
  earliest :
      (n : ℕ)
      → next_run_after c last_run ≡ ok (n * 60_000_000)
      → last_run < n * 60_000_000
      → n < start_of last_run + ten_years
      → matches c.schedule n ≡ true
      → ((j : ℕ) → last_run < j * 60_000_000 → j < n → matches c.schedule j ≡ false)
      → FirstMatch c last_run
  none_in_ten_years :
      next_run_after c last_run ≡ raise (tlo_error config_error)
      → ((j : ℕ)
          → last_run < j * 60_000_000
          → j < start_of last_run + ten_years
          → matches c.schedule j ≡ false)
      → FirstMatch c last_run

-- For any fields of an expression and any last run, next_run_after gives the first minute strictly
-- after the last run that matches the expression, and this minute is less than ten years of 365
-- days behind the minute that follows the last run; or it raises TloConfigError, and then no minute
-- of those ten years matches. The loop ends within the fuel that the model gives it.
pub next_run_after-FirstMatch : (c : CronSchedule) (last_run : ℕ) → FirstMatch c last_run
unfolding next_run_after
next_run_after-FirstMatch c last_run =
    let start = start_of last_run in
    let h : start + ten_years < start + suc ten_years = omega arith in
    elim (finds c.schedule (start + ten_years) (suc ten_years) start (omega arith) h) [
      | first n r p q here silent ↦
          earliest n (rw (next_run_after, r) refl) (omega arith) q here
            (λ j a b. silent j (omega arith) b)
      | never r silent ↦
          none_in_ten_years (rw (next_run_after, r) refl) (λ j a b. silent j (omega arith) b)
    ]
