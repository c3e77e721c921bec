-- ===== src/Calendar/Steps.antt =====
-- The start of the next day, hour, minute and second, and what lies before it.
use mathlib.Core.Path.{ap₂}
use go_dispatch.Calendar.Order.{
  days_in_bounds, SameMinute, SameMonth, SameDay, SameHour, hour_key, day_key, minute_key, AtDay,
  key, month_key, IsTime,
}
use go_dispatch.Calendar.{
  days_in, second_start, hour_start, minute_start, next_month, day_start, Time, add_hour,
  add_minute, add_second, add_day,
}
use go_dispatch.Base.Shared.{◌==◌, Bool-cases, ◌+◌, ◌≤◌, ◌<◌, ◌≡◌, ◌⊎◌, inl, inr, arith}

abbrev pub next_day : Time → Time
next_day t = add_day (day_start t)

abbrev pub next_hour : Time → Time
next_hour t = add_hour (hour_start t)

abbrev pub next_minute : Time → Time
next_minute t = add_minute (minute_start t)

abbrev pub next_second : Time → Time
next_second t = add_second (second_start t)

-- The next day is in the same month, or the first one of the next month.
pub next_day_lem :
    (t : Time)
    → IsTime t
    → let u = next_day t in
      IsTime u
      × AtDay u
      × ((SameMonth t u × (u.day ≡ t.day + 1))
          ⊎ ((u.day ≡ 1) × (t.day ≡ days_in t.year t.month) × (month_key u ≡ month_key t + 1)))
unfolding add_day next_month day_start
next_day_lem t h = ground (
  arith,
  days_in_bounds t.year t.month,
  days_in_bounds t.year (t.month + 1),
  days_in_bounds (t.year + 1) 1,
)

pub same_month : (t v : Time) → IsTime t → IsTime v → month_key t ≡ month_key v → SameMonth t v
same_month t v h k e = omega (arith, h.month_range, k.month_range)

pub same_day : (t v : Time) → IsTime t → IsTime v → day_key t ≡ day_key v → SameDay t v
same_day t v h k e =
    let a = days_in_bounds t.year t.month in
    let b = days_in_bounds v.year v.month in
    let m : month_key t ≡ month_key v = omega (arith, h.day_range, k.day_range) in
    let same = same_month t v h k m in omega (arith, h.day_range, k.day_range)

-- Before the next day there is, from `t` on, the day of `t` only.
pub day_between :
    (t v : Time) → IsTime t → IsTime v → key t ≤ key v → key v < key (next_day t) → SameDay t v
day_between t v h k from to = go (next_day_lem t h)
  where
    size : SameMonth t v → days_in t.year t.month ≡ days_in v.year v.month
    size same = ap₂ days_in same.0 same.1

    go :
        (let u = next_day t in
          IsTime u
          × AtDay u
          × ((SameMonth t u × (u.day ≡ t.day + 1))
              ⊎ ((u.day ≡ 1) × (t.day ≡ days_in t.year t.month) × (month_key u ≡ month_key t + 1))))
        → SameDay t v
    go (a, b, inl (same, on)) = same_day t v h k (omega (arith, h.hour_range, k.hour_range))
    go (a, b, inr (first, last, on)) =
        let n = days_in_bounds t.year t.month in
        let m = days_in_bounds v.year v.month in
        let e : month_key t ≡ month_key v = omega (arith, h, k) in
        let same = same_month t v h k e in let fits = size same in omega (arith, h, k)

pub same_hour : (t v : Time) → IsTime t → IsTime v → hour_key t ≡ hour_key v → SameHour t v
same_hour t v h k e =
    let d : day_key t ≡ day_key v = omega (arith, h.hour_range, k.hour_range) in
    let same = same_day t v h k d in omega (arith, h.hour_range, k.hour_range)

pub same_minute : (t v : Time) → IsTime t → IsTime v → minute_key t ≡ minute_key v → SameMinute t v
same_minute t v h k e =
    let d : hour_key t ≡ hour_key v = omega (arith, h.minute_range, k.minute_range) in
    let same = same_hour t v h k d in omega (arith, h.minute_range, k.minute_range)

-- The last hour of a day is followed by the next day, the last minute of an hour by the next hour.
pub next_hour-cases :
    (t : Time)
    → t.hour < 24
    → ((t.hour < 23) × (next_hour t ≡ record (hour_start t) { hour = t.hour + 1 }))
      ⊎ ((t.hour ≡ 23) × (next_hour t ≡ next_day t))
unfolding add_hour add_day hour_start day_start next_month
next_hour-cases t h = elim (Bool-cases (t.hour == 23)) [
  | inl last ↦ inr (ground arith, ground arith)
  | inr other ↦ inl (ground arith, ground arith)
]

pub next_minute-cases :
    (t : Time)
    → t.minute < 60
    → ((t.minute < 59) × (next_minute t ≡ record (minute_start t) { minute = t.minute + 1 }))
      ⊎ ((t.minute ≡ 59) × (next_minute t ≡ next_hour t))
unfolding add_minute add_hour add_day hour_start minute_start next_month
next_minute-cases t h = elim (Bool-cases (t.minute == 59)) [
  | inl last ↦ inr (ground arith, ground arith)
  | inr other ↦ inl (ground arith, ground arith)
]

pub next_second-cases :
    (t : Time)
    → t.second < 60
    → ((t.second < 59) × (next_second t ≡ record (second_start t) { second = t.second + 1 }))
      ⊎ ((t.second ≡ 59) × (next_second t ≡ next_minute t))
unfolding add_second add_minute add_hour add_day minute_start second_start next_month
next_second-cases t h = elim (Bool-cases (t.second == 59)) [
  | inl last ↦ inr (ground arith, ground arith)
  | inr other ↦ inl (ground arith, ground arith)
]
