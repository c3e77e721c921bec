-- ===== src/Spec/Stage.antt =====
-- One loop of `Next` and what comes after it, as a part of the search for a matching time.
use go_dispatch.Base.Outcome.{Ends-mono, Ends-bind, ◌>>=◌, Ends, Outcome}
use go_dispatch.Calendar.Order.{IsTime, SameYear}
use go_dispatch.Spec.First.{
  IsWrapped-after, IsFound-after, SkipsAll, IsWrapped, IsFound, IsReady, matches,
}
use go_dispatch.Spec.Loop.{increment-Ends, Jumped, Reached, IsUnit}
use go_dispatch.Calendar.{Time}
use go_dispatch.Spec.{target, increment, Jump, SpecSchedule}
use go_dispatch.Base.Shared.{ℕ, ◌+◌, ◌<◌, ◌≡◌, ◌⊎◌, Bool, true, false}

module _ {ℓ} {Location : Type ℓ} (s : SpecSchedule Location) (fits : Time → Bool)
    (reset advance : Time → Time) (wraps : Time → Bool) (index : Time → ℕ) (top : ℕ)
    (Same Parent Carry : Time → Time → Type 0) (Start : Time → Type 0)
    (unit : IsUnit fits reset advance wraps index top Same Parent Carry Start)
    (needed : (v : Time) → fits v ≡ false → matches s v ≡ false)
    (in_year : (t u : Time) → Parent t u → SameYear t u) where
  -- How a loop that did not jump leaves the flag: as it was, or on at the start of a unit.
  abbrev pub IsFlagged : Time → Bool → Time → Bool → Type 0
  IsFlagged t added u flag = ((u ≡ t) × (flag ≡ added)) ⊎ ((flag ≡ true) × Start u)

  abbrev At : Time → Bool → Time × Bool → Type 0
  At = Reached fits reset advance wraps index top Same Parent Carry Start

  abbrev Over : Time → Jump → Type 0
  Over = Jumped fits reset advance wraps index top Same Parent Carry Start

  -- Where the rest finds the first match, or jumps, from the time that the loop reaches, so does
  -- the loop with the rest behind it.
  pub stage-Ends :
      (fuel : ℕ) (t : Time) (added : Bool) (rest : Time × Bool → Outcome Jump (Time × Bool))
      → top < index t + fuel
      → IsTime t
      → (added ≡ true → (fits t ≡ true) ⊎ Start t)
      → ((w u : Time) → IsTime w → Parent t w → Start u → Carry w u → IsReady s u)
      → ((u : Time) (flag : Bool)
          → IsTime u
          → fits u ≡ true
          → Parent t u
          → IsFlagged t added u flag
          → Ends (IsFound s u) (IsWrapped s u) (rest (u, flag)))
      → Ends
          (IsFound s t)
          (IsWrapped s t)
          (increment fits reset advance wraps fuel t added >>= rest)
  stage-Ends fuel t added rest enough h ready wrapped then_rest =
      Ends-bind (At t added) (IsFound s t) (IsWrapped s t)
        (increment fits reset advance wraps fuel t added) rest
        (Ends-mono (At t added) (At t added) (Over t) (IsWrapped s t)
          (increment fits reset advance wraps fuel t added)
          (increment-Ends fits reset advance wraps index top Same Parent Carry Start unit fuel t
            added enough h ready)
          (λ r reached. reached)
          (λ j jumped. record {
            valid = jumped.valid;
            ahead = jumped.ahead;
            skips = λ v k from to. needed v (jumped.skips v k from to);
            ready =
                wrapped jumped.last (target j) jumped.last_valid jumped.parent jumped.at
                  jumped.carry;
          }))
        λ (u, flag) reached.
          let skipped : SkipsAll s t u = λ v k from to. needed v (reached.skips v k from to) in
          Ends-mono (IsFound s u) (IsFound s t) (IsWrapped s u) (IsWrapped s t) (rest (u, flag))
            (then_rest u flag reached.valid reached.fitting reached.parent reached.how)
            (λ r. IsFound-after s t u r reached.ahead skipped (in_year t u reached.parent))
            (λ j. IsWrapped-after s t u j reached.ahead skipped)
