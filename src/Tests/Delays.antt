-- ===== src/Tests/Delays.antt =====
-- The theorem on DelayIfStillRunning at two calls of one job.
use go_dispatch.Cron.Delay.{
  waiting, working, lock, DelayReach-IsSerial, DelayReach, IsSerial, DelayState, move, later,
  wrapped, invoke,
}
use go_dispatch.Base.Shared.{refl, true, [], ◌∷◌}

-- The first call runs, and the second waits.
abbrev one_waiting : DelayState
one_waiting = record { locked = true; calls = working ∷ waiting ∷ [] }

one_waiting-DelayReach : DelayReach one_waiting
one_waiting-DelayReach = later (later (later wrapped invoke) invoke) (move 0 refl (lock refl))

DelayReach-IsSerial_example : IsSerial one_waiting
DelayReach-IsSerial_example = DelayReach-IsSerial one_waiting-DelayReach
