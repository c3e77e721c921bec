-- ===== src/Spec/Pass.antt =====
-- The five loops behind one another: `pass` ends on the first match, or jumps past what it skipped.
use go_dispatch.Calendar.Next.{AtSecond, SameSecond}
use go_dispatch.Spec.Loop.{increment-Ends, Jumped, Reached}
use go_dispatch.Spec.Stage.{stage-Ends}
use go_dispatch.Spec.Units.{
  ToYear, ToMonth, ToDay, second_unit, ToMinute, ToHour, day_unit, hour_unit, minute_unit,
  month_unit,
}
use go_dispatch.Spec.First.{
  IsReady-day, IsReady-minute, IsReady-hour, IsWrapped, IsFound, matches, IsReady,
}
use go_dispatch.Base.Outcome.{Ends-mono, ◌>>=◌, Ends, Outcome}
use go_dispatch.Calendar.Order.{
  SameYear, AtMonth, AtHour, AtDay, AtMinute, SameHour, SameDay, SameMinute, SameMonth, IsTime,
}
use go_dispatch.Calendar.{
  add_month, month_start, add_hour, hour_start, day_start, add_second, add_minute, second_start,
  minute_start, Time,
}
use go_dispatch.Spec.{
  next_midnight, month_loop, pass, increment, hour_loop, day_loop, Jump, hour_matches,
  month_matches, second_matches, minute_matches, day_matches, minute_loop, second_loop,
  SpecSchedule,
}
use go_dispatch.Base.Shared.{◌==◌, ◌≡◌, refl, sym, ◌∙◌, ◌⊎◌, inl, inr, Bool, true, false, arith}

module _ {ℓ} {Location : Type ℓ} (s : SpecSchedule Location) where
  second_needed : (v : Time) → second_matches s v ≡ false → matches s v ≡ false
  second_needed v off = ground (arith, off)

  minute_needed : (v : Time) → minute_matches s v ≡ false → matches s v ≡ false
  minute_needed v off = ground (arith, off)

  hour_needed : (v : Time) → hour_matches s v ≡ false → matches s v ≡ false
  hour_needed v off = ground (arith, off)

  day_needed : (v : Time) → day_matches s v ≡ false → matches s v ≡ false
  day_needed v off = ground (arith, off)

  month_needed : (v : Time) → month_matches s v ≡ false → matches s v ≡ false
  month_needed v off = ground (arith, off)

  -- The fields down to one fit.
  abbrev MonthFits : Time → Type 0
  MonthFits t = month_matches s t ≡ true

  abbrev DayFits : Time → Type 0
  DayFits t = MonthFits t × (day_matches s t ≡ true)

  abbrev HourFits : Time → Type 0
  HourFits t = DayFits t × (hour_matches s t ≡ true)

  abbrev MinuteFits : Time → Type 0
  MinuteFits t = HourFits t × (minute_matches s t ≡ true)

  MonthFits-in : (t u : Time) → SameMonth t u → MonthFits t → MonthFits u
  MonthFits-in t u same m = (month_unit s).fits_same t u same ∙ m

  DayFits-in : (t u : Time) → SameDay t u → DayFits t → DayFits u
  DayFits-in t u same (m, d) = (MonthFits-in t u same.0 m, (day_unit s).fits_same t u same ∙ d)

  HourFits-in : (t u : Time) → SameHour t u → HourFits t → HourFits u
  HourFits-in t u same (d, o) = (DayFits-in t u same.0 d, (hour_unit s).fits_same t u same ∙ o)

  MinuteFits-in : (t u : Time) → SameMinute t u → MinuteFits t → MinuteFits u
  MinuteFits-in t u same (o, n) = (HourFits-in t u same.0 o, (minute_unit s).fits_same t u same ∙ n)

  from_second-Ends :
      (t : Time) (added : Bool)
      → IsTime t
      → MinuteFits t
      → Ends (IsFound s t) (IsWrapped s t) (second_loop s t added)
  unfolding second_loop
  from_second-Ends t added h fit =
      Ends-mono
        (Reached (second_matches s) second_start add_second (λ t. t.second == 0) (λ t. t.second) 59
          SameSecond SameMinute (ToMinute s) AtSecond t added)
        (IsFound s t)
        (Jumped (second_matches s) second_start add_second (λ t. t.second == 0) (λ t. t.second) 59
          SameSecond SameMinute (ToMinute s) AtSecond t)
        (IsWrapped s t)
        (increment (second_matches s) second_start add_second (λ t. t.second == 0) 60 t added)
        (increment-Ends (second_matches s) second_start add_second (λ t. t.second == 0)
          (λ t. t.second) 59 SameSecond SameMinute (ToMinute s) AtSecond (second_unit s) 60 t added
          (omega arith) h (λ _. inr h.whole))
        (λ r reached.
          let ((m, d), o) = (MinuteFits-in t r.0 reached.parent fit).0 in
          record {
            valid = reached.valid;
            ahead = reached.ahead;
            skips = λ v k from to. second_needed v (reached.skips v k from to);
            same_year = reached.parent.0.0.0.0;
            fits = rw (m, d, o, (MinuteFits-in t r.0 reached.parent fit).1, reached.fitting) refl;
          })
        (λ j jumped.
          let (((m, d), o), n) = MinuteFits-in t jumped.last jumped.parent fit in
          record {
            valid = jumped.valid;
            ahead = jumped.ahead;
            skips = λ v k from to. second_needed v (jumped.skips v k from to);
            ready = rw jumped.carry (IsReady-minute s jumped.last jumped.last_valid m d o);
          })

  abbrev from_minute : Time → Bool → Outcome Jump (Time × Bool)
  from_minute t added = minute_loop s t added >>= λ (u, flag). second_loop s u flag

  abbrev from_hour : Time → Bool → Outcome Jump (Time × Bool)
  from_hour t added = hour_loop s t added >>= λ (u, flag). from_minute u flag

  abbrev from_day : Time → Bool → Outcome Jump (Time × Bool)
  from_day t added = day_loop s t added >>= λ (u, flag). from_hour u flag

  -- What the flag says of a time: every field fits or starts anew.
  abbrev FlagReady : Time → Bool → Type 0
  FlagReady t added = added ≡ true → IsReady s t

  from_minute-Ends :
      (t : Time) (added : Bool)
      → IsTime t
      → HourFits t
      → FlagReady t added
      → Ends (IsFound s t) (IsWrapped s t) (from_minute t added)
  unfolding minute_loop
  from_minute-Ends t added h fit ready =
      stage-Ends s (minute_matches s) minute_start add_minute (λ t. t.minute == 0) (λ t. t.minute)
        59 SameMinute SameHour (ToHour s) AtMinute (minute_unit s) minute_needed
        (λ t u same. same.0.0.0) 60 t added _ (omega arith) h (λ on. (ready on).minute_ready)
        (λ w u k same at carry.
          let ((m, d), o) = HourFits-in t w same fit in rw carry (IsReady-hour s w k m d))
        (λ u flag k fits same how. from_second-Ends u flag k (HourFits-in t u same fit, fits))

  -- After a loop the smaller fields are as they were, or start anew.
  flag_minute :
      (t u : Time) (added flag : Bool)
      → FlagReady t added
      → ((u ≡ t) × (flag ≡ added)) ⊎ ((flag ≡ true) × AtHour u)
      → flag ≡ true
      → (minute_matches s u ≡ true) ⊎ AtMinute u
  flag_minute t u added flag ready (inl (same, e)) on = rw same (ready (sym e ∙ on)).minute_ready
  flag_minute t u added flag ready (inr (_, at)) on = inr at.1

  flag_hour :
      (t u : Time) (added flag : Bool)
      → FlagReady t added
      → ((u ≡ t) × (flag ≡ added)) ⊎ ((flag ≡ true) × AtDay u)
      → flag ≡ true
      → ((hour_matches s u ≡ true) ⊎ AtHour u) × ((minute_matches s u ≡ true) ⊎ AtMinute u)
  flag_hour t u added flag ready (inl (same, e)) on =
      let r = ready (sym e ∙ on) in rw same (r.hour_ready, r.minute_ready)
  flag_hour t u added flag ready (inr (_, at)) on = (inr at.1, inr at.1.1)

  flag_day :
      (t u : Time) (added flag : Bool)
      → FlagReady t added
      → ((u ≡ t) × (flag ≡ added)) ⊎ ((flag ≡ true) × AtMonth u)
      → flag ≡ true
      → ((day_matches s u ≡ true) ⊎ AtDay u)
        × ((hour_matches s u ≡ true) ⊎ AtHour u)
        × ((minute_matches s u ≡ true) ⊎ AtMinute u)
  flag_day t u added flag ready (inl (same, e)) on =
      let r = ready (sym e ∙ on) in rw same (r.day_ready, r.hour_ready, r.minute_ready)
  flag_day t u added flag ready (inr (_, at)) on = (inr at.1, inr at.1.1, inr at.1.1.1)

  from_hour-Ends :
      (t : Time) (added : Bool)
      → IsTime t
      → DayFits t
      → FlagReady t added
      → Ends (IsFound s t) (IsWrapped s t) (from_hour t added)
  unfolding hour_loop
  from_hour-Ends t added h fit ready =
      stage-Ends s (hour_matches s) hour_start add_hour (λ t. t.hour == 0) (λ t. t.hour) 23 SameHour
        SameDay (ToDay s) AtHour (hour_unit s) hour_needed (λ t u same. same.0.0) 24 t added _
        (omega arith) h (λ on. (ready on).hour_ready)
        (λ w u k same at carry. rw carry (IsReady-day s w k (DayFits-in t w same fit).0))
        (λ u flag k fits same how.
          let (m, d) = DayFits-in t u same fit in
          from_minute-Ends u flag k ((m, d), fits)
            (λ on. record {
              month_ready = inl m;
              day_ready = inl d;
              hour_ready = inl fits;
              minute_ready = flag_minute t u added flag ready how on;
            }))

  from_day-Ends :
      (t : Time) (added : Bool)
      → IsTime t
      → MonthFits t
      → FlagReady t added
      → Ends (IsFound s t) (IsWrapped s t) (from_day t added)
  unfolding day_loop
  from_day-Ends t added h fit ready =
      stage-Ends s (day_matches s) day_start (next_midnight s) (λ t. t.day == 1) (λ t. t.day) 31
        SameDay SameMonth (ToMonth s) AtDay (day_unit s) day_needed (λ t u same. same.0) 31 t added
        _ (omega (arith, h.day_range)) h (λ on. (ready on).day_ready)
        (λ w u k same at first. record {
          month_ready = inr (first, at);
          day_ready = inr at;
          hour_ready = inr at.1;
          minute_ready = inr at.1.1;
        })
        (λ u flag k fits same how.
          let m = MonthFits-in t u same fit in
          from_hour-Ends u flag k (m, fits)
            (λ on.
              let (o, n) = flag_hour t u added flag ready how on in
              record {
                month_ready = inl m;
                day_ready = inl fits;
                hour_ready = o;
                minute_ready = n;
              }))

  pub pass-Ends :
      (t : Time) (added : Bool)
      → IsTime t
      → FlagReady t added
      → Ends (IsFound s t) (IsWrapped s t) (pass s t added)
  unfolding pass month_loop
  pass-Ends t added h ready =
      stage-Ends s (month_matches s) month_start add_month (λ t. t.month == 1) (λ t. t.month) 12
        SameMonth SameYear (ToYear s) AtMonth (month_unit s) month_needed (λ t u same. same) 12 t
        added _ (omega (arith, h.month_range)) h (λ on. (ready on).month_ready)
        (λ w u k same at carry. record {
          month_ready = inr at;
          day_ready = inr at.1;
          hour_ready = inr at.1.1;
          minute_ready = inr at.1.1.1;
        })
        (λ u flag k fits same how. from_day-Ends u flag k fits (λ on.
          let (d, o, n) = flag_day t u added flag ready how on in
          record { month_ready = inl fits; day_ready = d; hour_ready = o; minute_ready = n }))
