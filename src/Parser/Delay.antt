-- ===== src/Parser/Delay.antt =====
-- cron/constantdelay.go: the schedule that Every makes.
use go_dispatch.Base.Int.{pos, ltb_ℤ, ℤ}
use go_dispatch.Parser.{every, one_second}
use go_dispatch.Base.Keys.{text_eq, nat_eq}
use go_dispatch.Base.Shared.{Bool-cases, ℕ, ◌+◌, ◌-◌, ◌%◌, ◌≤◌, ◌<◌, ◌≡◌, inl, inr, arith}

-- `Next`. A time is in nanoseconds, and its `Nanosecond` is what is left of the last second.
unfoldable pub constant_delay_next : ℕ → ℕ → ℕ
constant_delay_next delay t = t + delay - t % one_second

every_seconds : (duration : ℤ) → (one_second ≤ every duration) × (every duration % one_second ≡ 0)
unfolding every
every_seconds duration = elim (Bool-cases (ltb_ℤ duration (pos one_second))) [
  | inl short ↦ rw short (omega arith, omega arith)
  | inr long ↦ ground arith
]

-- The activations of a schedule of Every, from any time on.
pub record IsRegular (duration : ℤ) (t : ℕ) : Type 0 where
  pub later : t < constant_delay_next (every duration) t
  pub soon : constant_delay_next (every duration) t ≤ t + every duration
  pub on_second : constant_delay_next (every duration) t % one_second ≡ 0
  pub steps :
      constant_delay_next (every duration) (constant_delay_next (every duration) t)
      ≡ constant_delay_next (every duration) t + every duration

-- Whatever duration Every is given, the next activation after a time is later than it, by no more
-- than the rounded duration, and on a full second; the one after that follows the rounded duration
-- later.
pub constant_delay_next-IsRegular : (duration : ℤ) (t : ℕ) → IsRegular duration t
unfolding constant_delay_next
constant_delay_next-IsRegular duration t =
    let (long, whole) = every_seconds duration in
    let on_second : (t + every duration - t % one_second) % one_second ≡ 0 = omega arith in
    record { later = omega arith; soon = omega arith; on_second = on_second; steps = omega arith }
