-- ===== src/Tests/Times.antt =====
-- The activation times at a schedule for leap days, from the last second of a year on.
use go_dispatch.Spec.{
  from_wrap, pass, month_loop, month_matches, day_loop, day_matches, hour_loop, hour_matches,
  minute_loop, minute_matches, second_loop, second_matches,
}
use go_dispatch.Calendar.{add_second, add_month, month_start, weekday}
use go_dispatch.Calendar.Order.{IsTime}
use go_dispatch.Spec.Activation.{next-IsNextMoment, IsNextMoment}
use go_dispatch.Base.Outcome.{ok, Returns}
use go_dispatch.Calendar.{days_in, second_start}
use go_dispatch.Spec.{next_clock, zoned, next, Moment, SpecSchedule}
use go_dispatch.Base.Shared.{◌==◌, ℕ, ◌+◌, ◌^◌, ◌≡◌, refl, some, arith}

-- 04:05:00 on every 29th of February.
abbrev leap_days : SpecSchedule ℕ
leap_days = record {
  second = 2 ^ 0;
  minute = 2 ^ 5;
  hour = 2 ^ 4;
  dom = 2 ^ 29;
  month = 2 ^ 2;
  dow = 2 ^ 63 + 127;
  location = 0;
}

-- Zones whose clocks do not differ; zone 0 stands for the local one.
abbrev same_clocks : Moment ℕ → ℕ → Moment ℕ
same_clocks t zone = record t { location = zone }

abbrev new_year : Moment ℕ
new_year = record {
  clock = record {
    year = 2022;
    month = 12;
    day = 31;
    hour = 23;
    minute = 59;
    second = 59;
    nanosecond = 5;
  };
  location = 3;
}

leap_day_found :
    next ℕ (λ zone. zone == 0) same_clocks leap_days new_year
    ≡ ok (
        some (record {
          clock = record {
            year = 2024;
            month = 2;
            day = 29;
            hour = 4;
            minute = 5;
            second = 0;
            nanosecond = 0;
          };
          location = 3;
        }))
unfolding next next_clock from_wrap add_second pass month_loop month_matches add_month month_start
    day_loop day_matches weekday hour_loop hour_matches minute_loop minute_matches second_loop
    second_matches
leap_day_found = refl

new_year-IsTime : IsTime (second_start new_year.clock)
unfolding second_start days_in
new_year-IsTime = record {
  month_range = omega arith;
  day_range = omega arith;
  hour_range = omega arith;
  minute_range = omega arith;
  second_range = omega arith;
  whole = refl;
}

next-IsNextMoment_example :
    Returns
      (IsNextMoment ℕ (λ zone. zone == 0) same_clocks leap_days new_year 3)
      (next ℕ (λ zone. zone == 0) same_clocks leap_days new_year)
unfolding zoned
next-IsNextMoment_example =
    next-IsNextMoment ℕ (λ zone. zone == 0) same_clocks leap_days new_year new_year-IsTime
