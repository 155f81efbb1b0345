-- ===== src/Calendar/Days.antt =====
-- Dates and their numbers.
use tlo.Prelude.{
  ℕ, zero, suc, ◌+◌, ◌-◌, ◌≤◌, ◌<◌, ◌≡◌, refl, ap, ◌∙◌, Bool-cases, ltb, inl, inr, arith,
}
use native.Mathlib.Nat.{add-zero, add-suc}
use tlo.Calendar.{
  Date, date, is_leap, days_in_month, days_in_year, next_day, date_of, days_of_years,
  days_of_months, day_number,
}

pub record IsValid (d : Date) : Type 0 where
  pub year_in : 1970 ≤ d.year
  pub month_in : (1 ≤ d.month) × (d.month ≤ 12)
  pub day_in : (1 ≤ d.day) × (d.day ≤ days_in_month d.year d.month)

days_in_month_pos : (y m : ℕ) → 1 ≤ days_in_month y m
unfolding days_in_month
days_in_month_pos y m = ground arith

next_day-IsValid : (d : Date) → IsValid d → IsValid (next_day d)
unfolding next_day
next_day-IsValid d v =
    ground (arith, days_in_month_pos d.year (d.month + 1), days_in_month_pos (d.year + 1) 1)

pub date_of-IsValid : (n : ℕ) → IsValid (date_of n)
unfolding date_of days_in_month is_leap
date_of-IsValid zero = ground arith
date_of-IsValid (suc n) = next_day-IsValid (date_of n) (date_of-IsValid n)

twelve_months : (y : ℕ) → days_of_months y 11 + days_in_month y 12 ≡ days_in_year y
unfolding days_of_months days_in_month days_in_year
twelve_months y = ground arith

days_of_months-suc :
    (y m : ℕ) → 1 ≤ m → days_of_months y (m + 1 - 1) ≡ days_of_months y (m - 1) + days_in_month y m
unfolding days_of_months
days_of_months-suc y zero h = absurd (omega arith)
days_of_months-suc y (suc m) h =
    let e : suc m + 1 - 1 ≡ suc m = omega arith in
    let f : m ≡ suc m - 1 = omega arith in
    ap (days_of_months y) e ∙ ap (λ k. days_of_months y k + days_in_month y (suc m)) f

-- The number of the first day of the month after a date's, and of the year after it.
pub month_after :
    (d : Date)
    → IsValid d
    → day_number (date d.year (d.month + 1) 1) + d.day
      ≡ day_number d + (days_in_month d.year d.month + 1)
unfolding day_number
month_after d v = omega (arith, days_of_months-suc d.year d.month v.month_in.0)

days_of_years-suc :
    (y : ℕ) → 1970 ≤ y → days_of_years (y + 1 - 1970) ≡ days_of_years (y - 1970) + days_in_year y
unfolding days_of_years
days_of_years-suc y h =
    let e : y + 1 - 1970 ≡ suc (y - 1970) = omega arith in
    let f : 1970 + (y - 1970) ≡ y = omega arith in
    ap days_of_years e ∙ ap (λ z. days_of_years (y - 1970) + days_in_year z) f

pub year_after :
    (d : Date)
    → IsValid d
    → d.month ≡ 12
    → day_number (date (d.year + 1) 1 1) + d.day ≡ day_number d + (days_in_month d.year d.month + 1)
unfolding day_number days_of_months
year_after d v e = omega (
  arith,
  days_of_years-suc d.year v.year_in,
  twelve_months d.year,
  ap (λ m. days_of_months d.year (m - 1)) e,
  ap (days_in_month d.year) e,
)

same_month : (d : Date) → IsValid d → day_number (record d { day = d.day + 1 }) ≡ day_number d + 1
unfolding day_number
same_month d v = omega arith

day_number-next_day : (d : Date) → IsValid d → day_number (next_day d) ≡ day_number d + 1
unfolding next_day
day_number-next_day d v = elim (Bool-cases (ltb d.day (days_in_month d.year d.month))) [
  | inl e ↦ rw e (same_month d v)
  | inr e ↦ elim (Bool-cases (ltb d.month 12)) [
    | inl f ↦ rw (e, f) (ground (arith, month_after d v))
    | inr f ↦ rw (e, f) (ground (arith, year_after d v))
  ]
]

-- The date of a day has the day's number.
pub day_number-date_of : (n : ℕ) → day_number (date_of n) ≡ n
unfolding date_of day_number days_of_years days_of_months
day_number-date_of zero = refl
day_number-date_of (suc n) =
    omega (arith, day_number-next_day (date_of n) (date_of-IsValid n), day_number-date_of n)

next_in_month :
    (d : Date) → d.day < days_in_month d.year d.month → next_day d ≡ record d { day = d.day + 1 }
unfolding next_day
next_in_month d h = ground arith

-- The days up to the end of a month have its month and year.
pub date_of-add :
    (n k : ℕ)
    → (date_of n).day + k ≤ days_in_month (date_of n).year (date_of n).month
    → date_of (n + k) ≡ record (date_of n) { day = (date_of n).day + k }
unfolding date_of
date_of-add n zero h = rw (add-zero n, add-zero (date_of n).day) refl
date_of-add n (suc k) h =
    let d = record (date_of n) { day = (date_of n).day + k } in
    let e : date_of (n + k) ≡ d = date_of-add n k (omega arith) in
    let s : d.day + 1 ≡ (date_of n).day + suc k = omega arith in
    ap date_of (add-suc n k)
    ∙ ap next_day e
    ∙ next_in_month d (omega arith)
    ∙ ap (λ x. date d.year d.month x) s
