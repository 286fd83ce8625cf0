-- ===== src/Entitlement/Window.antt =====
-- `currentWindowStart` of apps/api/src/entitlements/entitlement.service.ts: the start of the metered
-- window that an instant falls in. Instants are milliseconds since 1970-01-01 00:00 UTC.
use expertos.Common.{
  if◌then◌else◌, ltb, Bool-cases, inl, inr, List, [], ◌∷◌, take, ℕ, zero, suc, refl, ◌+◌, ◌-◌, ◌*◌,
  ◌/◌, ◌%◌, ◌≤◌, ◌<◌, ◌≡◌, arith,
}
use expertos.Database.Rows.{UsageWindow}

abbrev pub day_ms : ℕ
day_ms = 86400000

-- `getUTCDay`: 1970-01-01 was a Thursday, and Sunday is 0.
pub utc_day : ℕ → ℕ
utc_day days = (days + 4) % 7

-- `getUTCDate` less one: how many days of the month have passed, by the Gregorian calendar counted
-- from 0000-03-01, in eras of 400 years.
pub days_of_month : ℕ → ℕ
days_of_month days =
    let doe = (days + 719468) % 146097 in
    let yoe = (doe + doe / 36524 - doe / 1460 - doe / 146096) / 365 in
    let doy = doe + yoe / 100 - (365 * yoe + yoe / 4) in
    let mp = (5 * doy + 2) / 153 in doy - (153 * mp + 2) / 5

unfoldable pub current_window_start : UsageWindow → ℕ → ℕ
unfolding utc_day days_of_month
current_window_start UsageWindow.day now = now / day_ms * day_ms
current_window_start UsageWindow.month now = (now / day_ms - days_of_month (now / day_ms)) * day_ms
current_window_start UsageWindow.week now =
    (now / day_ms - (utc_day (now / day_ms) + 6) % 7) * day_ms

-- The days that a window spans at most.
abbrev pub span : UsageWindow → ℕ
span UsageWindow.day = 1
span UsageWindow.week = 7
span UsageWindow.month = 31

days_of_month_bounds : (days : ℕ) → days_of_month days ≤ 30
unfolding days_of_month
days_of_month_bounds days = omega arith

-- The lengths of the months from March to January.
abbrev month_lengths : List ℕ
month_lengths = 31 ∷ 30 ∷ 31 ∷ 30 ∷ 31 ∷ 31 ∷ 30 ∷ 31 ∷ 30 ∷ 31 ∷ 31 ∷ []

abbrev total : List ℕ → ℕ
total [] = 0
total (n ∷ ns) = n + total ns

-- The days from 0000-03-01 to the first of a month, which is counted from 0 for March on, in a year
-- that begins with March: a leap day is the last day of its year.
abbrev pub first_of : ℕ → ℕ → ℕ
first_of year month =
    365 * year + year / 4 - year / 100 + year / 400 + total (take month month_lengths)

days_before_eq : (m : ℕ) → m ≤ 11 → (153 * m + 2) / 5 ≡ total (take m month_lengths)
days_before_eq zero h = refl
days_before_eq (suc zero) h = refl
days_before_eq (suc (suc zero)) h = refl
days_before_eq (suc (suc (suc zero))) h = refl
days_before_eq (suc (suc (suc (suc zero)))) h = refl
days_before_eq (suc (suc (suc (suc (suc zero))))) h = refl
days_before_eq (suc (suc (suc (suc (suc (suc zero)))))) h = refl
days_before_eq (suc (suc (suc (suc (suc (suc (suc zero))))))) h = refl
days_before_eq (suc (suc (suc (suc (suc (suc (suc (suc zero)))))))) h = refl
days_before_eq (suc (suc (suc (suc (suc (suc (suc (suc (suc zero))))))))) h = refl
days_before_eq (suc (suc (suc (suc (suc (suc (suc (suc (suc (suc zero)))))))))) h = refl
days_before_eq (suc (suc (suc (suc (suc (suc (suc (suc (suc (suc (suc zero))))))))))) h = refl
days_before_eq (suc (suc (suc (suc (suc (suc (suc (suc (suc (suc (suc (suc m)))))))))))) h =
    absurd (omega arith)

-- The first of the next month.
abbrev pub next_first : ℕ → ℕ → ℕ
next_first year month = if ltb month 11 then first_of year (suc month) else first_of (suc year) 0

-- A day, counted from 1970-01-01, is the first of the Gregorian month that another day falls in.
abbrev pub IsFirstOf : ℕ → ℕ → Type 0
IsFirstOf first days =
    (year : ℕ) × (month : ℕ) × (month ≤ 11)
    × (first + 719468 ≡ first_of year month)
    × (first ≤ days)
    × (days + 719468 < next_first year month)

month_first : (days : ℕ) → days_of_month days ≤ days → IsFirstOf (days - days_of_month days) days
unfolding days_of_month
month_first days le =
    let era = (days + 719468) / 146097 in
    let doe = (days + 719468) % 146097 in
    let yoe = (doe + doe / 36524 - doe / 1460 - doe / 146096) / 365 in
    let doy = doe + yoe / 100 - (365 * yoe + yoe / 4) in
    let mp = (5 * doy + 2) / 153 in
    let small : mp ≤ 11 = omega arith in
    let start : first_of (yoe + 400 * era) mp ≡ days - days_of_month days + 719468 =
      omega (arith, days_before_eq mp small) in
    (
      yoe + 400 * era,
      mp,
      small,
      omega (arith, start),
      omega arith,
      elim (Bool-cases (ltb mp 11)) [
        | inl e ↦ rw e (omega (arith, days_before_eq (suc mp) (ground (arith, e))))
        | inr e ↦ rw e (omega arith)
      ],
    )

in_month : (days : ℕ) → days_of_month days ≤ days
unfolding days_of_month
in_month days = omega arith

week_first : (days : ℕ) → 4 ≤ days → (days - (utc_day days + 6) % 7) % 7 ≡ 4
unfolding utc_day
week_first days h = omega arith

whole_days : (days : ℕ) → days * day_ms / day_ms ≡ days
whole_days days = omega arith

-- A window of the kind begins with the first day: any day, a Monday (1970-01-05 is day 4), or the
-- first of the month that the other day falls in.
abbrev pub Begins : UsageWindow → ℕ → ℕ → Type 0
Begins UsageWindow.day first days = Unit
Begins UsageWindow.week first days = first % 7 ≡ 4
Begins UsageWindow.month first days = IsFirstOf first days

-- From the first Monday of 1970 on, the start of a window is the midnight that begins a day, a
-- Monday or the first of the instant's month; the instant is not before it, and less than 1, 7 or 31
-- days after it.
pub current_window_start_bounds :
    (w : UsageWindow) (now : ℕ)
    → 4 * day_ms ≤ now
    → (current_window_start w now ≤ now)
      × (now < current_window_start w now + span w * day_ms)
      × (current_window_start w now % day_ms ≡ 0)
      × Begins w (current_window_start w now / day_ms) (now / day_ms)
unfolding current_window_start
current_window_start_bounds UsageWindow.day now h = (omega arith, omega arith, omega arith, tt)
current_window_start_bounds UsageWindow.week now h =
    let days = now / day_ms in
    (
      omega arith,
      omega arith,
      omega arith,
      rw (whole_days (days - (utc_day days + 6) % 7)) (week_first days (omega arith)),
    )
current_window_start_bounds UsageWindow.month now h =
    let days = now / day_ms in
    (
      omega (arith, days_of_month_bounds days),
      omega (arith, days_of_month_bounds days),
      omega arith,
      rw (whole_days (days - days_of_month days)) (month_first days (in_month days)),
    )

-- Every instant from the start of a day's or a week's window up to an instant of it has that start.
current_window_start_stable :
    (now earlier : ℕ)
    → current_window_start UsageWindow.week now ≤ earlier
    → earlier ≤ now
    → current_window_start UsageWindow.week earlier ≡ current_window_start UsageWindow.week now
unfolding current_window_start
current_window_start_stable now earlier h k = omega arith
