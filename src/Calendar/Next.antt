-- ===== src/Calendar/Next.antt =====
-- The start of the next unit is a time after `t`, and before it the unit of `t` lasts.
use go_dispatch.Calendar.Steps.{
  day_between, same_hour, next_hour-cases, same_minute, next_day_lem, next_hour, next_minute-cases,
  next_day, next_second-cases, next_minute, next_second,
}
use go_dispatch.Calendar.Order.{
  month_between, days_in_bounds, add_month_lem, minute_key, AtDay, AtMonth, AtHour, SameHour,
  SameDay, AtMinute, SameMonth, key, IsTime, SameMinute,
}
use go_dispatch.Calendar.{month_start, add_month, minute_start, second_start, hour_start, Time}
use go_dispatch.Base.Shared.{◌≤◌, ◌<◌, ◌≡◌, refl, inl, inr, arith}

pub record IsNext (Same : Time → Time → Type 0) (Start : Time → Type 0) (t u : Time) : Type 0 where
  pub valid : IsTime u
  pub at : Start u
  pub ahead : key t < key u
  pub between : (v : Time) → IsTime v → key t ≤ key v → key v < key u → Same t v

pub add_month-IsNext :
    (t : Time) → IsTime t → IsNext SameMonth AtMonth t (add_month (month_start t))
add_month-IsNext t h =
    let (valid, at, on, _) = add_month_lem t h in
    let size = days_in_bounds t.year t.month in
    record {
      valid = valid;
      at = at;
      ahead = omega (arith, h);
      between = λ v k from to. month_between t _ v h k at on valid.month_range.0 from to;
    }

pub next_day-IsNext : (t : Time) → IsTime t → IsNext SameDay AtDay t (next_day t)
next_day-IsNext t h =
    let (valid, at, on) = next_day_lem t h in
    let size = days_in_bounds t.year t.month in
    record {
      valid = valid;
      at = at;
      ahead = ground (arith, h, valid.month_range);
      between = λ v k from to. day_between t v h k from to;
    }

-- A unit that ends with the larger one, and one that does not.
pub next_hour-IsNext : (t : Time) → IsTime t → IsNext SameHour AtHour t (next_hour t)
unfolding hour_start
next_hour-IsNext t h = elim (next_hour-cases t h.hour_range) [
  | inl (inside, e) ↦ rw e (record {
    valid = record {
      month_range = h.month_range;
      day_range = h.day_range;
      hour_range = omega arith;
      minute_range = omega arith;
      second_range = omega arith;
      whole = refl;
    };
    at = omega arith;
    ahead = omega (arith, h);
    between = λ v k from to.
        same_hour t v h k
          (omega (arith, h.minute_range, k.minute_range, h.second_range, k.second_range));
  })
  | inr (last, e) ↦
      let n = next_day-IsNext t h in
      rw e (record {
        valid = n.valid;
        at = n.at.1;
        ahead = n.ahead;
        between = λ v k from to. let same = n.between v k from to in (same, omega (arith, h, k));
      })
]

pub next_minute-IsNext : (t : Time) → IsTime t → IsNext SameMinute AtMinute t (next_minute t)
unfolding minute_start
next_minute-IsNext t h = elim (next_minute-cases t h.minute_range) [
  | inl (inside, e) ↦ rw e (record {
    valid = record {
      month_range = h.month_range;
      day_range = h.day_range;
      hour_range = h.hour_range;
      minute_range = omega arith;
      second_range = omega arith;
      whole = refl;
    };
    at = omega arith;
    ahead = omega (arith, h);
    between = λ v k from to. same_minute t v h k (omega (arith, h.second_range, k.second_range));
  })
  | inr (last, e) ↦
      let n = next_hour-IsNext t h in
      rw e (record {
        valid = n.valid;
        at = n.at.1;
        ahead = n.ahead;
        between = λ v k from to. let same = n.between v k from to in (same, omega (arith, h, k));
      })
]

abbrev pub SameSecond : Time → Time → Type 0
SameSecond t u = SameMinute t u × (t.second ≡ u.second)

abbrev pub AtSecond : Time → Type 0
AtSecond t = t.nanosecond ≡ 0

pub next_second-IsNext : (t : Time) → IsTime t → IsNext SameSecond AtSecond t (next_second t)
unfolding second_start
next_second-IsNext t h = elim (next_second-cases t h.second_range) [
  | inl (inside, e) ↦ rw e (record {
    valid = record {
      month_range = h.month_range;
      day_range = h.day_range;
      hour_range = h.hour_range;
      minute_range = h.minute_range;
      second_range = omega arith;
      whole = refl;
    };
    at = refl;
    ahead = omega arith;
    between = λ v k from to.
        let d : minute_key t ≡ minute_key v = omega (arith, h.second_range, k.second_range) in
        (same_minute t v h k d, omega (arith, h.second_range, k.second_range));
  })
  | inr (last, e) ↦
      let n = next_minute-IsNext t h in
      rw e (record {
        valid = n.valid;
        at = n.at.1;
        ahead = n.ahead;
        between = λ v k from to. let same = n.between v k from to in (same, omega (arith, h, k));
      })
]
