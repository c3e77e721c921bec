-- ===== src/Spec/First.antt =====
-- `next_clock` finds the first matching time.
use go_dispatch.Spec.Units.{hour_unit, day_unit, month_unit}
use go_dispatch.Calendar.Steps.{
  next_hour-cases, next_minute-cases, next_minute, next_hour, next_day_lem, next_day,
}
use go_dispatch.Calendar.Order.{AtMinute, AtHour, AtDay, AtMonth, SameYear, key, IsTime}
use go_dispatch.Calendar.{minute_start, hour_start, Time}
use go_dispatch.Spec.{
  second_matches, minute_matches, hour_matches, day_matches, target, Jump, month_matches,
  SpecSchedule,
}
use go_dispatch.Base.Shared.{
  ltb, Bool-cases, ◌≤◌, ◌<◌, ◌≡◌, refl, ◌∙◌, ◌⊎◌, inl, inr, Bool, true, false, ◌&&◌, arith,
}

module _ {ℓ} {Location : Type ℓ} (s : SpecSchedule Location) where
  -- The schedule is active at the time.
  abbrev pub matches : Time → Bool
  matches t =
      month_matches s t
      && day_matches s t
      && hour_matches s t
      && minute_matches s t
      && second_matches s t

  abbrev pub SkipsAll : Time → Time → Type 0
  SkipsAll t u = (v : Time) → IsTime v → key t ≤ key v → key v < key u → matches v ≡ false

  -- Each field fits or starts anew, so that a loop need not reset it.
  pub record IsReady (t : Time) : Type 0 where
    pub month_ready : (month_matches s t ≡ true) ⊎ AtMonth t
    pub day_ready : (day_matches s t ≡ true) ⊎ AtDay t
    pub hour_ready : (hour_matches s t ≡ true) ⊎ AtHour t
    pub minute_ready : (minute_matches s t ≡ true) ⊎ AtMinute t

  pub record IsWrapped (t : Time) (j : Jump) : Type 0 where
    pub valid : IsTime (target j)
    pub ahead : key t < key (target j)
    pub skips : SkipsAll t (target j)
    pub ready : IsReady (target j)

  pub record IsFound (t : Time) (r : Time × Bool) : Type 0 where
    pub valid : IsTime r.0
    pub ahead : key t ≤ key r.0
    pub skips : SkipsAll t r.0
    pub same_year : SameYear t r.0
    pub fits : matches r.0 ≡ true

  SkipsAll-trans : (t u w : Time) → SkipsAll t u → SkipsAll u w → SkipsAll t w
  SkipsAll-trans t u w a b v k from to = elim (Bool-cases (ltb (key v) (key u))) [
    | inl before ↦ a v k from (ground arith)
    | inr after ↦ b v k (ground arith) to
  ]

  pub IsFound-after :
      (t u : Time) (r : Time × Bool)
      → key t ≤ key u
      → SkipsAll t u
      → SameYear t u
      → IsFound u r
      → IsFound t r
  IsFound-after t u r on skipped same f = record {
    valid = f.valid;
    ahead = omega (arith, f.ahead);
    skips = SkipsAll-trans t u r.0 skipped f.skips;
    same_year = same ∙ f.same_year;
    fits = f.fits;
  }

  pub IsWrapped-after :
      (t u : Time) (j : Jump) → key t ≤ key u → SkipsAll t u → IsWrapped u j → IsWrapped t j
  IsWrapped-after t u j on skipped w = record {
    valid = w.valid;
    ahead = omega (arith, w.ahead);
    skips = SkipsAll-trans t u (target j) skipped w.skips;
    ready = w.ready;
  }

  -- The next day is in the month of `t` or starts one; the next hour likewise.
  month_kept :
      (t : Time)
      → IsTime t
      → month_matches s t ≡ true
      → (month_matches s (next_day t) ≡ true) ⊎ AtMonth (next_day t)
  month_kept t h fits = elim (next_day_lem t h).2 [
    | inl (same, _) ↦ inl ((month_unit s).fits_same t (next_day t) same ∙ fits)
    | inr (first, _, _) ↦ inr (first, (next_day_lem t h).1)
  ]

  -- The start of a day, an hour, a minute is ready if the larger fields fitted before it.
  pub IsReady-day : (w : Time) → IsTime w → month_matches s w ≡ true → IsReady (next_day w)
  IsReady-day w h m =
      let at = (next_day_lem w h).1 in
      record {
        month_ready = month_kept w h m;
        day_ready = inr at;
        hour_ready = inr at.1;
        minute_ready = inr at.1.1;
      }

  pub IsReady-hour :
      (w : Time)
      → IsTime w
      → month_matches s w ≡ true
      → day_matches s w ≡ true
      → IsReady (next_hour w)
  unfolding hour_start
  IsReady-hour w h m d = elim (next_hour-cases w h.hour_range) [
    | inl (inside, e) ↦ rw e (record {
      month_ready = inl ((month_unit s).fits_same w _ (refl, refl) ∙ m);
      day_ready = inl ((day_unit s).fits_same w _ ((refl, refl), refl) ∙ d);
      hour_ready = inr (refl, (refl, refl));
      minute_ready = inr (refl, refl);
    })
    | inr (last, e) ↦ rw e (IsReady-day w h m)
  ]

  pub IsReady-minute :
      (w : Time)
      → IsTime w
      → month_matches s w ≡ true
      → day_matches s w ≡ true
      → hour_matches s w ≡ true
      → IsReady (next_minute w)
  unfolding minute_start
  IsReady-minute w h m d o = elim (next_minute-cases w h.minute_range) [
    | inl (inside, e) ↦ rw e (record {
      month_ready = inl ((month_unit s).fits_same w _ (refl, refl) ∙ m);
      day_ready = inl ((day_unit s).fits_same w _ ((refl, refl), refl) ∙ d);
      hour_ready = inl ((hour_unit s).fits_same w _ (((refl, refl), refl), refl) ∙ o);
      minute_ready = inr (refl, refl);
    })
    | inr (last, e) ↦ rw e (IsReady-hour w h m d)
  ]
