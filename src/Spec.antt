-- ===== src/Spec.antt =====
-- cron/spec.go: SpecSchedule and its activation times. The zones and the change of zone are
-- parameters; within a zone, whose offset is fixed and of whole minutes, the times are those of
-- Calendar.
pub mod Loop
pub mod Units
pub mod First
pub mod Stage
pub mod Pass
pub mod Activation
use go_dispatch.Base.Outcome.{◌>>=◌}
use go_dispatch.Base.Outcome.{panic, err, ok, out_of_fuel, Outcome}
use Prim.Native.Nat.{bit_and}
use go_dispatch.Fields.{star_bit}
use go_dispatch.Calendar.{
  add_hour, add_month, add_minute, add_second, day_start, hour_start, second_start, month_start,
  add_hours, minute_start, add_day, weekday, Time,
}
use go_dispatch.Base.Shared.{
  ltb, ◌==◌, if◌then◌else◌, ℕ, zero, suc, ◌+◌, ◌-◌, ◌*◌, ◌^◌, Bool, true, false, ◌&&◌, ◌||◌, Option,
  none, some,
}

pub record SpecSchedule {ℓ} (Location : Type ℓ) : Type ℓ where
  pub second : ℕ
  pub minute : ℕ
  pub hour : ℕ
  pub dom : ℕ
  pub month : ℕ
  pub dow : ℕ
  pub location : Location

-- `1<<v & bits > 0`
unfoldable pub is_set : ℕ → ℕ → Bool
is_set bits v = ltb 0 (bit_and (2 ^ v) bits)

-- `goto WRAP` with the time that was reached; the flag `added` is set by then.
pub data Jump : Type 0 where
  wrap : Time → Jump

-- The time that a jump has reached.
abbrev pub target : Jump → Time
target (wrap t) = t

-- A loop of `Next`: until the field fits, the time goes on by the field's unit, from the start of
-- that unit if no field was incremented before. At the start of the next larger unit it jumps.
unfoldable pub increment :
    (Time → Bool)
    → (Time → Time)
    → (Time → Time)
    → (Time → Bool)
    → ℕ
    → Time
    → Bool
    → Outcome Jump (Time × Bool)
increment fits reset advance wraps zero t added = out_of_fuel
increment fits reset advance wraps (suc fuel) t added =
    let t' = advance (if added then t else reset t) in
    let later = increment fits reset advance wraps fuel t' true in
    if fits t then ok (t, added) else if wraps t' then err (wrap t') else later

module _ {ℓ} {Location : Type ℓ} (s : SpecSchedule Location) where
  unfoldable pub month_matches : Time → Bool
  unfolding is_set
  month_matches t = is_set s.month t.month

  unfoldable pub day_matches : Time → Bool
  unfolding is_set
  day_matches t =
      let dom_match = is_set s.dom t.day in
      let dow_match = is_set s.dow (weekday t) in
      if ltb 0 (bit_and s.dom star_bit) || ltb 0 (bit_and s.dow star_bit)
      then dom_match && dow_match
      else dom_match || dow_match

  unfoldable pub hour_matches : Time → Bool
  unfolding is_set
  hour_matches t = is_set s.hour t.hour

  unfoldable pub minute_matches : Time → Bool
  unfolding is_set
  minute_matches t = is_set s.minute t.minute

  unfoldable pub second_matches : Time → Bool
  unfolding is_set
  second_matches t = is_set s.second t.second

  unfoldable pub month_loop : Time → Bool → Outcome Jump (Time × Bool)
  unfolding increment
  month_loop = increment month_matches month_start add_month (λ t. t.month == 1) 12

  -- The next day, put back to midnight where the clock was changed.
  unfoldable pub next_midnight : Time → Time
  next_midnight t =
      let u = add_day t in
      if u.hour == 0
      then u
      else if ltb 12 u.hour
      then add_hours (24 - u.hour) u
      else record u { hour = 0 }

  unfoldable pub day_loop : Time → Bool → Outcome Jump (Time × Bool)
  unfolding increment next_midnight
  day_loop = increment day_matches day_start next_midnight (λ t. t.day == 1) 31

  unfoldable pub hour_loop : Time → Bool → Outcome Jump (Time × Bool)
  unfolding increment
  hour_loop = increment hour_matches hour_start add_hour (λ t. t.hour == 0) 24

  unfoldable pub minute_loop : Time → Bool → Outcome Jump (Time × Bool)
  unfolding increment
  minute_loop = increment minute_matches minute_start add_minute (λ t. t.minute == 0) 60

  unfoldable pub second_loop : Time → Bool → Outcome Jump (Time × Bool)
  unfolding increment
  second_loop = increment second_matches second_start add_second (λ t. t.second == 0) 60

  -- The five loops, from the label WRAP on.
  unfoldable pub pass : Time → Bool → Outcome Jump (Time × Bool)
  pass t added = do
    (t1, added1) ← month_loop t added
    (t2, added2) ← day_loop t1 added1
    (t3, added3) ← hour_loop t2 added2
    (t4, added4) ← minute_loop t3 added3
    second_loop t4 added4

  -- From the label WRAP on; `none` for the zero time.
  unfoldable pub from_wrap : ℕ → ℕ → Time → Bool → Outcome Jump (Option Time)
  from_wrap zero year_limit t added = out_of_fuel
  from_wrap (suc fuel) year_limit t added =
      if ltb year_limit t.year then ok none else elim (pass t added) [
        | ok (u, _) ↦ ok (some u)
        | err (wrap u) ↦ from_wrap fuel year_limit u true
        | panic ↦ panic
        | out_of_fuel ↦ out_of_fuel
      ]

  -- Within the zone of the schedule: the search from the upcoming second on. The fuel is as many
  -- rounds as there are seconds in the years up to the limit, months having 31 days.
  unfoldable pub next_clock : Time → Outcome Jump (Option Time)
  next_clock t =
      let u = add_second (record t { nanosecond = 0 }) in
      let year_limit = u.year + 5 in from_wrap ((year_limit + 1) * 32140800 + 1) year_limit u false

-- A time.Time: the clock in a zone.
pub record Moment {ℓ} (Location : Type ℓ) : Type ℓ where
  pub clock : Time
  pub location : Location

module _ {ℓ} (Location : Type ℓ) (is_local : Location → Bool)
    (in_zone : Moment Location → Location → Moment Location) where
  -- The time in the zone of the schedule, if it names one.
  unfoldable pub zoned : SpecSchedule Location → Moment Location → Moment Location
  zoned s t = if is_local s.location then t else in_zone t s.location

  unfoldable pub next :
      SpecSchedule Location → Moment Location → Outcome Jump (Option (Moment Location))
  unfolding zoned
  next s t = do
    let here = zoned s t
    found ← next_clock s here.clock
    ok (elim found [
      | none ↦ none
      | some u ↦ some (in_zone (record { clock = u; location = here.location }) t.location)
    ])
