-- ===== src/Spec/Activation.antt =====
-- `next`: the first activation after a time, within the years that the search covers.
use go_dispatch.Calendar.Next.{next_second-IsNext}
use go_dispatch.Spec.Pass.{pass-Ends}
use go_dispatch.Calendar.Steps.{next_second}
use go_dispatch.Base.Outcome.{out_of_fuel, panic, Returns-inv, err, ok, Ends, Outcome, Returns}
use go_dispatch.Spec.First.{IsWrapped, IsFound, IsReady, SkipsAll, matches}
use go_dispatch.Calendar.Order.{days_in_bounds, IsTime, key}
use go_dispatch.Spec.{next, zoned, pass, Moment, next_clock, wrap, Jump, from_wrap, SpecSchedule}
use go_dispatch.Calendar.{second_start, Time}
use go_dispatch.Base.Shared.{
  ltb, Bool-cases, ℕ, zero, suc, ◌+◌, ◌*◌, ◌≤◌, ◌<◌, ◌≡◌, refl, inl, inr, Bool, true, false, Option,
  none, some, arith,
}

-- A second of a year up to `limit` comes before all seconds of later years.
abbrev end_of : ℕ → ℕ
end_of limit = (limit + 1) * 32140800

within_year : (v : Time) (limit : ℕ) → IsTime v → v.year ≤ limit → key v < end_of limit
within_year v limit k in_time = omega (
  arith,
  k.month_range,
  k.day_range,
  k.hour_range,
  k.minute_range,
  k.second_range,
  days_in_bounds v.year v.month,
)

beyond_year : (u : Time) (limit : ℕ) → limit < u.year → end_of limit ≤ key u
beyond_year u limit later = omega arith

second_ahead : (t : Time) → IsTime (second_start t) → key t < key (next_second t)
unfolding second_start
second_ahead t h = omega (arith, (next_second-IsNext (second_start t) h).ahead)

module _ {ℓ} {Location : Type ℓ} (s : SpecSchedule Location) where
  -- No second from `t` on up to the end of the year `limit` matches.
  abbrev pub NoMatch : Time → ℕ → Type 0
  NoMatch t limit = (v : Time) → IsTime v → key t ≤ key v → v.year ≤ limit → matches s v ≡ false

  -- `u` is the first second from `t` on that matches, and in a year up to `limit`.
  pub record IsFirst (t : Time) (limit : ℕ) (u : Time) : Type 0 where
    pub valid : IsTime u
    pub from : key t ≤ key u
    pub year_within : u.year ≤ limit
    pub active : matches s u ≡ true
    pub first : SkipsAll s t u

  abbrev pub IsAnswer : Time → ℕ → Option Time → Type 0
  IsAnswer t limit none = NoMatch t limit
  IsAnswer t limit (some u) = IsFirst t limit u

  answer_after :
      (t u : Time) (limit : ℕ) (o : Option Time)
      → key t ≤ key u
      → SkipsAll s t u
      → IsAnswer u limit o
      → IsAnswer t limit o
  answer_after t u limit none on skipped h = λ v k from in_time.
      elim (Bool-cases (ltb (key v) (key u))) [
        | inl before ↦ skipped v k from (ground arith)
        | inr after ↦ h v k (ground arith) in_time
      ]
  answer_after t u limit (some w) on skipped h = record {
    valid = h.valid;
    from = omega (arith, h.from);
    year_within = h.year_within;
    active = h.active;
    first = λ v k from to. elim (Bool-cases (ltb (key v) (key u))) [
      | inl before ↦ skipped v k from (ground arith)
      | inr after ↦ h.first v k (ground arith) to
    ];
  }

  -- With a round for each second that is left, the search ends with the answer.
  from_wrap-IsAnswer :
      (fuel limit : ℕ) (t : Time) (added : Bool)
      → 0 < fuel
      → end_of limit < key t + fuel
      → IsTime t
      → (added ≡ true → IsReady s t)
      → Returns (IsAnswer t limit) (from_wrap s fuel limit t added)
  unfolding from_wrap
  from_wrap-IsAnswer zero limit t added some_fuel enough h ready = absurd (omega arith)
  from_wrap-IsAnswer (suc fuel) limit t added some_fuel enough h ready =
      elim (Bool-cases (ltb limit t.year)) [
        | inl over ↦ rw over (λ v k from in_time.
            absurd (ground (arith, within_year v limit k in_time, beyond_year t limit)))
        | inr within ↦ rw within (
            go (pass s t added) (pass-Ends s t added h ready) (ground arith) λ u wrapped below.
              from_wrap-IsAnswer fuel limit u true (omega (arith, wrapped.ahead))
                (omega (arith, wrapped.ahead)) wrapped.valid (λ _. wrapped.ready))
      ]
    where
      go :
          (r : Outcome Jump (Time × Bool))
          → Ends (IsFound s t) (IsWrapped s t) r
          → t.year ≤ limit
          → ((u : Time)
              → IsWrapped s t (wrap u)
              → key t < end_of limit
              → Returns (IsAnswer u limit) (from_wrap s fuel limit u true))
          → Returns (IsAnswer t limit) (elim r [
            | ok (u, _) ↦ ok (some u)
            | err (wrap u) ↦ from_wrap s fuel limit u true
            | panic ↦ panic
            | out_of_fuel ↦ out_of_fuel
          ])
      go (ok (u, flag)) found in_time again = record {
        valid = found.valid;
        from = found.ahead;
        year_within = omega (arith, found.same_year);
        active = found.fits;
        first = found.skips;
      }
      go (err (wrap u)) wrapped in_time again =
          let (o, e, answer) =
            Returns-inv (IsAnswer u limit) (from_wrap s fuel limit u true)
              (again u wrapped (within_year t limit h in_time)) in
          rw e (answer_after t u limit o (omega (arith, wrapped.ahead)) wrapped.skips answer)
      go panic impossible in_time again = absurd impossible
      go out_of_fuel impossible in_time again = absurd impossible

  -- `u` is the first second after `t` that matches, and in a year up to `limit`.
  pub record IsFirstAfter (t : Time) (limit : ℕ) (u : Time) : Type 0 where
    pub valid : IsTime u
    pub after : key t < key u
    pub year_within : u.year ≤ limit
    pub active : matches s u ≡ true
    pub first : (v : Time) → IsTime v → key t < key v → key v < key u → matches s v ≡ false

  -- No second after `t` up to the end of the year `limit` matches.
  abbrev pub NoneAfter : Time → ℕ → Type 0
  NoneAfter t limit = (v : Time) → IsTime v → key t < key v → v.year ≤ limit → matches s v ≡ false

  -- The years that the search covers: five more than that of the second after `t`.
  abbrev pub limit_of : Time → ℕ
  limit_of t = (next_second t).year + 5

  abbrev pub IsActivation : Time → Option Time → Type 0
  IsActivation t none = NoneAfter t (limit_of t)
  IsActivation t (some u) = IsFirstAfter t (limit_of t) u

  -- The next second is the least time after `t`.
  next_second-le :
      (t v : Time)
      → IsTime (second_start t)
      → IsTime v
      → key t < key v
      → key (next_second t) ≤ key v
  unfolding second_start
  next_second-le t v h k later = elim (Bool-cases (ltb (key v) (key (next_second t)))) [
    | inr no_less ↦ ground arith
    | inl less ↦
        let same =
          (next_second-IsNext (second_start t) h).between v k (omega arith) (ground arith) in
        absurd (omega arith)
  ]

  answer-IsActivation :
      (t : Time) (o : Option Time)
      → IsTime (second_start t)
      → IsAnswer (next_second t) (limit_of t) o
      → IsActivation t o
  answer-IsActivation t none h answer =
      λ v k later in_time. answer v k (next_second-le t v h k later) in_time
  answer-IsActivation t (some u) h answer = record {
    valid = answer.valid;
    after = omega (arith, answer.from, started);
    year_within = answer.year_within;
    active = answer.active;
    first = λ v k later to. answer.first v k (next_second-le t v h k later) to;
  }
    where
      started : key t < key (next_second t)
      started = second_ahead t h

  pub next_clock-IsActivation :
      (t : Time) → IsTime (second_start t) → Returns (IsActivation t) (next_clock s t)
  unfolding next_clock second_start
  next_clock-IsActivation t h =
      let (o, e, answer) = Returns-inv (IsAnswer (next_second t) (limit_of t)) _ (
        from_wrap-IsAnswer ((limit_of t + 1) * 32140800 + 1) (limit_of t) (next_second t) false
          (omega arith) (omega arith) (next_second-IsNext (second_start t) h).valid (λ on. cc)) in
      rw e (answer-IsActivation t o h answer)

module _ (Location : Type 0) (is_local : Location → Bool)
    (in_zone : Moment Location → Location → Moment Location) where
  -- The answer for a time that is `here` in the zone of the schedule: what is found there, put
  -- back into the zone of the time asked for.
  abbrev pub IsNextMoment :
      SpecSchedule Location → Moment Location → Location → Option (Moment Location) → Type 0
  IsNextMoment s here back none = NoneAfter s here.clock (limit_of s here.clock)
  IsNextMoment s here back (some m) =
      (u : Time) × IsFirstAfter s here.clock (limit_of s here.clock) u
      × (m ≡ in_zone (record { clock = u; location = here.location }) back)

  -- Whatever the schedule and the time, `Next` ends, within its rounds, with the first second
  -- after the time at which all fields of the schedule match, in the zone of the schedule, put
  -- back into the zone of the time; or with the zero time where there is no such second up to the
  -- end of the fifth year after. The zone is one with a fixed offset of whole minutes.
  pub next-IsNextMoment :
      (s : SpecSchedule Location) (t : Moment Location)
      → IsTime (second_start (zoned Location is_local in_zone s t).clock)
      → Returns
          (IsNextMoment s (zoned Location is_local in_zone s t) t.location)
          (next Location is_local in_zone s t)
  unfolding next
  next-IsNextMoment s t h =
      let here = zoned Location is_local in_zone s t in
      let (o, e, found) =
        Returns-inv (IsActivation s here.clock) _ (next_clock-IsActivation s here.clock h) in
      rw e (go o found)
    where
      go :
          (o : Option Time)
          → IsActivation s (zoned Location is_local in_zone s t).clock o
          → IsNextMoment s (zoned Location is_local in_zone s t) t.location (elim o [
            | none ↦ none
            | some u ↦ some (
                in_zone
                  (record { clock = u; location = (zoned Location is_local in_zone s t).location })
                  t.location)
          ])
      go none found = found
      go (some u) found = (u, found, refl)
