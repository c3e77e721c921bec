-- ===== src/Spec/Units.antt =====
-- The five loops of `Next`, each with its unit.
use go_dispatch.Calendar.Next.{
  add_month-IsNext, next_day-IsNext, next_hour-IsNext, next_second-IsNext, next_minute-IsNext,
  AtSecond, SameSecond,
}
use go_dispatch.Calendar.Steps.{
  next_hour-cases, next_second-cases, next_minute-cases, next_day_lem, next_minute, next_day,
  next_hour,
}
use go_dispatch.Calendar.Order.{
  add_month_lem, days_in_bounds, AtMonth, AtHour, AtDay, SameYear, SameDay, AtMinute, SameMonth,
  SameMinute, IsTime, SameHour,
}
use go_dispatch.Spec.Loop.{IsUnit}
use go_dispatch.Calendar.{
  add_month, add_hour, add_second, day_start, month_start, add_minute, weekday, Time, hour_start,
  minute_start, second_start,
}
use go_dispatch.Spec.{
  is_set, minute_matches, hour_matches, day_matches, next_midnight, second_matches, month_matches,
  SpecSchedule,
}
use go_dispatch.Base.Shared.{◌==◌, ◌≡◌, refl, sym, ap, ◌∙◌, inl, inr, arith}

month_start_lem : (t : Time) → AtMonth t → month_start t ≡ t
unfolding month_start
month_start_lem t at = ground arith

day_start_lem : (t : Time) → AtDay t → day_start t ≡ t
unfolding day_start
day_start_lem t at = ground arith

module _ {ℓ} {Location : Type ℓ} (s : SpecSchedule Location) where
  month_fits : (t v : Time) → SameMonth t v → month_matches s v ≡ month_matches s t
  unfolding month_matches
  month_fits t v same = ap (is_set s.month) (sym same.1)

  day_fits : (t v : Time) → SameDay t v → day_matches s v ≡ day_matches s t
  unfolding day_matches weekday
  day_fits t v ((year, month), day) = rw (year, month, day) refl

  hour_fits : (t v : Time) → SameHour t v → hour_matches s v ≡ hour_matches s t
  unfolding hour_matches
  hour_fits t v same = ap (is_set s.hour) (sym same.1)

  minute_fits : (t v : Time) → SameMinute t v → minute_matches s v ≡ minute_matches s t
  unfolding minute_matches
  minute_fits t v same = ap (is_set s.minute) (sym same.1)

  second_fits : (t v : Time) → SameSecond t v → second_matches s v ≡ second_matches s t
  unfolding second_matches
  second_fits t v same = ap (is_set s.second) (sym same.1)

  -- In a zone with a fixed offset the next midnight is at 0.
  next_midnight_lem : (t : Time) → IsTime t → next_midnight s (day_start t) ≡ next_day t
  unfolding next_midnight
  next_midnight_lem t h = let (_, at, _) = next_day_lem t h in ground (arith, at)

  -- What a jump says of the time that it reaches, `t` being in the last unit before it.
  abbrev pub ToYear : Time → Time → Type 0
  ToYear t u = u.month ≡ 1

  abbrev pub ToMonth : Time → Time → Type 0
  ToMonth t u = u.day ≡ 1

  abbrev pub ToDay : Time → Time → Type 0
  ToDay t u = u ≡ next_day t

  abbrev pub ToHour : Time → Time → Type 0
  ToHour t u = u ≡ next_hour t

  abbrev pub ToMinute : Time → Time → Type 0
  ToMinute t u = u ≡ next_minute t

  pub month_unit :
      IsUnit
        (month_matches s)
        month_start
        add_month
        (λ t. t.month == 1)
        (λ t. t.month)
        12
        SameMonth
        SameYear
        ToYear
        AtMonth
  month_unit = record {
    goes_on = add_month-IsNext;
    fits_same = month_fits;
    reset_start = month_start_lem;
    on = λ t h. ground (arith, add_month_lem t h);
    index-le = λ t h. h.month_range.1;
    same_parent = λ t. refl;
    parent_trans = λ t u v a b. a ∙ b;
  }

  pub day_unit :
      IsUnit
        (day_matches s)
        day_start
        (next_midnight s)
        (λ t. t.day == 1)
        (λ t. t.day)
        31
        SameDay
        SameMonth
        ToMonth
        AtDay
  day_unit = record {
    goes_on = λ t h. rw (next_midnight_lem t h) (next_day-IsNext t h);
    fits_same = day_fits;
    reset_start = day_start_lem;
    on = λ t h. rw (next_midnight_lem t h) (ground (arith, next_day_lem t h));
    index-le = λ t h. omega (arith, h.day_range, days_in_bounds t.year t.month);
    same_parent = λ t. (refl, refl);
    parent_trans = λ t u v a b. (a.0 ∙ b.0, a.1 ∙ b.1);
  }

  pub hour_unit :
      IsUnit
        (hour_matches s)
        hour_start
        add_hour
        (λ t. t.hour == 0)
        (λ t. t.hour)
        23
        SameHour
        SameDay
        ToDay
        AtHour
  unfolding hour_start
  hour_unit = record {
    goes_on = next_hour-IsNext;
    fits_same = hour_fits;
    reset_start = λ t at. ground arith;
    on = λ t h. elim (next_hour-cases t h.hour_range) [
      | inl (inside, e) ↦ rw e (inr (ground arith, ((refl, refl), refl), refl))
      | inr (last, e) ↦ let (_, at, _) = next_day_lem t h in rw e (inl (ground (arith, at), refl))
    ];
    index-le = λ t h. omega (arith, h.hour_range);
    same_parent = λ t. ((refl, refl), refl);
    parent_trans = λ t u v a b. omega arith;
  }

  pub minute_unit :
      IsUnit
        (minute_matches s)
        minute_start
        add_minute
        (λ t. t.minute == 0)
        (λ t. t.minute)
        59
        SameMinute
        SameHour
        ToHour
        AtMinute
  unfolding minute_start
  minute_unit = record {
    goes_on = next_minute-IsNext;
    fits_same = minute_fits;
    reset_start = λ t at. ground arith;
    on = λ t h. elim (next_minute-cases t h.minute_range) [
      | inl (inside, e) ↦ rw e (inr (ground arith, (((refl, refl), refl), refl), refl))
      | inr (last, e) ↦ rw e (inl (ground (arith, (next_hour-IsNext t h).at), refl))
    ];
    index-le = λ t h. omega (arith, h.minute_range);
    same_parent = λ t. (((refl, refl), refl), refl);
    parent_trans = λ t u v a b. omega arith;
  }

  pub second_unit :
      IsUnit
        (second_matches s)
        second_start
        add_second
        (λ t. t.second == 0)
        (λ t. t.second)
        59
        SameSecond
        SameMinute
        ToMinute
        AtSecond
  unfolding second_start
  second_unit = record {
    goes_on = next_second-IsNext;
    fits_same = second_fits;
    reset_start = λ t at. ground arith;
    on = λ t h. elim (next_second-cases t h.second_range) [
      | inl (inside, e) ↦ rw e (inr (ground arith, ((((refl, refl), refl), refl), refl), refl))
      | inr (last, e) ↦ rw e (inl (ground (arith, (next_minute-IsNext t h).at), refl))
    ];
    index-le = λ t h. omega (arith, h.second_range);
    same_parent = λ t. ((((refl, refl), refl), refl), refl);
    parent_trans = λ t u v a b. omega arith;
  }
