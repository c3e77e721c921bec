-- ===== src/Calendar.antt =====
-- The civil times that cron/spec.go computes with: what it uses of the package `time`, in a zone
-- whose offset is fixed. A time is its fields; the month and the day count from 1.
pub mod Order
pub mod Steps
pub mod Next
use go_dispatch.Base.Shared.{
  ltb, ◌==◌, if◌then◌else◌, ℕ, zero, suc, ◌+◌, ◌-◌, ◌*◌, ◌/◌, ◌%◌, Bool, not, ◌&&◌, ◌||◌,
}

pub record Time : Type 0 where
  pub year : ℕ
  pub month : ℕ
  pub day : ℕ
  pub hour : ℕ
  pub minute : ℕ
  pub second : ℕ
  pub nanosecond : ℕ

unfoldable pub is_leap : ℕ → Bool
is_leap y = y % 4 == 0 && (not (y % 100 == 0) || y % 400 == 0)

unfoldable pub days_in : ℕ → ℕ → ℕ
unfolding is_leap
days_in y m =
    if m == 2
    then (if is_leap y then 29 else 28)
    else if m == 4 || m == 6 || m == 9 || m == 11
    then 30
    else 31

-- The days of the months before month `m`, of which there are `m - 1`.
days_before : ℕ → ℕ → ℕ
days_before y zero = 0
days_before y (suc m) = days_before y m + (if m == 0 then 0 else days_in y m)

-- `t.Weekday()`, Sunday being 0. The first of January of the year 1 is a Monday.
unfoldable pub weekday : Time → ℕ
unfolding days_before
weekday t =
    let past = t.year - 1 in
    (past * 365 + past / 4 - past / 100 + past / 400 + days_before t.year t.month + t.day) % 7

-- The first day of the month after that of `t`, at the same time of the day.
unfoldable pub next_month : Time → Time
next_month t =
    if t.month == 12
    then record t { year = t.year + 1; month = 1; day = 1 }
    else record t { month = t.month + 1; day = 1 }

-- `t.AddDate(0, 1, 0)`: a day that the next month does not have goes over into the one after it.
unfoldable pub add_month : Time → Time
unfolding next_month days_in
add_month t =
    let u = next_month t in
    let last = days_in u.year u.month in
    if ltb last t.day
    then record (next_month u) { day = t.day - last }
    else record u { day = t.day }

-- `t.AddDate(0, 0, 1)`
unfoldable pub add_day : Time → Time
unfolding next_month days_in
add_day t =
    if ltb t.day (days_in t.year t.month) then record t { day = t.day + 1 } else next_month t

-- `t.Add` of an hour, a minute and a second.
unfoldable pub add_hour : Time → Time
unfolding add_day
add_hour t =
    if t.hour == 23 then record (add_day t) { hour = 0 } else record t { hour = t.hour + 1 }

unfoldable pub add_minute : Time → Time
unfolding add_hour
add_minute t =
    if t.minute == 59
    then record (add_hour t) { minute = 0 }
    else record t { minute = t.minute + 1 }

unfoldable pub add_second : Time → Time
unfolding add_minute
add_second t =
    if t.second == 59
    then record (add_minute t) { second = 0 }
    else record t { second = t.second + 1 }

unfoldable pub add_hours : ℕ → Time → Time
unfolding add_hour
add_hours zero t = t
add_hours (suc n) t = add_hour (add_hours n t)

-- `time.Date` of the fields of `t` down to one of them, and `t.Truncate`.
unfoldable pub month_start : Time → Time
month_start t = record t { day = 1; hour = 0; minute = 0; second = 0; nanosecond = 0 }

unfoldable pub day_start : Time → Time
day_start t = record t { hour = 0; minute = 0; second = 0; nanosecond = 0 }

unfoldable pub hour_start : Time → Time
hour_start t = record t { minute = 0; second = 0; nanosecond = 0 }

unfoldable pub minute_start : Time → Time
minute_start t = record t { second = 0; nanosecond = 0 }

unfoldable pub second_start : Time → Time
second_start t = record t { nanosecond = 0 }
