-- ===== src/Calendar/Order.antt =====
-- The order of civil times, and how far each of the steps of the calendar goes.
use go_dispatch.Calendar.{month_start, next_month, add_month, Time, days_in}
use go_dispatch.Base.Shared.{ℕ, ◌+◌, ◌-◌, ◌*◌, ◌≤◌, ◌<◌, ◌≡◌, ◌⊎◌, arith}

pub days_in_bounds : (y m : ℕ) → (28 ≤ days_in y m) × (days_in y m ≤ 31)
unfolding days_in
days_in_bounds y m = ground arith

-- A time of the calendar, at a whole second.
pub record IsTime (t : Time) : Type 0 where
  pub month_range : (1 ≤ t.month) × (t.month ≤ 12)
  pub day_range : (1 ≤ t.day) × (t.day ≤ days_in t.year t.month)
  pub hour_range : t.hour < 24
  pub minute_range : t.minute < 60
  pub second_range : t.second < 60
  pub whole : t.nanosecond ≡ 0

-- The months, days, hours, minutes and seconds before a time, each month counted as 31 days.
abbrev pub month_key : Time → ℕ
month_key t = t.year * 12 + (t.month - 1)

abbrev pub day_key : Time → ℕ
day_key t = month_key t * 31 + (t.day - 1)

abbrev pub hour_key : Time → ℕ
hour_key t = day_key t * 24 + t.hour

abbrev pub minute_key : Time → ℕ
minute_key t = hour_key t * 60 + t.minute

abbrev pub key : Time → ℕ
key t = minute_key t * 60 + t.second

-- At the start of a minute, an hour, a day, a month.
abbrev pub AtMinute : Time → Type 0
AtMinute t = (t.second ≡ 0) × (t.nanosecond ≡ 0)

abbrev pub AtHour : Time → Type 0
AtHour t = (t.minute ≡ 0) × AtMinute t

abbrev pub AtDay : Time → Type 0
AtDay t = (t.hour ≡ 0) × AtHour t

abbrev pub AtMonth : Time → Type 0
AtMonth t = (t.day ≡ 1) × AtDay t

-- In the same year, month, day, hour, minute.
abbrev pub SameYear : Time → Time → Type 0
SameYear t u = t.year ≡ u.year

abbrev pub SameMonth : Time → Time → Type 0
SameMonth t u = SameYear t u × (t.month ≡ u.month)

abbrev pub SameDay : Time → Time → Type 0
SameDay t u = SameMonth t u × (t.day ≡ u.day)

abbrev pub SameHour : Time → Time → Type 0
SameHour t u = SameDay t u × (t.hour ≡ u.hour)

abbrev pub SameMinute : Time → Time → Type 0
SameMinute t u = SameHour t u × (t.minute ≡ u.minute)

pub add_month_lem :
    (t : Time)
    → IsTime t
    → let u = add_month (month_start t) in
      IsTime u
      × AtMonth u
      × (month_key u ≡ month_key t + 1)
      × ((u.month ≡ 1) ⊎ ((u.month ≡ t.month + 1) × (u.year ≡ t.year)))
unfolding add_month next_month month_start
add_month_lem t h = ground (
  arith,
  days_in_bounds t.year t.month,
  days_in_bounds t.year (t.month + 1),
  days_in_bounds (t.year + 1) 1,
)

-- Between `t` and the next month there is the month of `t` only.
pub month_between :
    (t u v : Time)
    → IsTime t
    → IsTime v
    → AtMonth u
    → month_key u ≡ month_key t + 1
    → 1 ≤ u.month
    → key t ≤ key v
    → key v < key u
    → SameMonth t v
month_between t u v h k at next first from to =
    let a = days_in_bounds t.year t.month in
    let b = days_in_bounds v.year v.month in
    let same : month_key t ≡ month_key v = omega (arith, h, k) in
    omega (arith, h.month_range, k.month_range)
