-- ===== src/Tests/Stopping.antt =====
-- The theorem on the context of Stop at one job.
use go_dispatch.Cron.Waiting.{
  cancel, wake, done_job, finish, cancelled, stop_called, start_job, in_run, nothing_started,
  WaitReach-IsTold, over, WaitState, WaitReach, IsTold, later,
}
use go_dispatch.Base.Shared.{refl, [], ◌∷◌}

-- One job is started and Stop is called; the job ends, a second one is started, and the goroutine
-- of Stop, which woke in between, makes its context done.
abbrev stopped_once : WaitState
stopped_once = record { jobs = over ∷ in_run ∷ []; counter = 1; stops = (1, cancelled) ∷ [] }

stopped_once-WaitReach : WaitReach stopped_once
stopped_once-WaitReach =
    later
      (later
        (later
          (later (later (later (later nothing_started start_job) stop_called) (finish 0 refl))
            (done_job 0 refl))
          (wake 0 1 refl refl))
        start_job)
      (cancel 0 1 refl)

WaitReach-IsTold_example : IsTold stopped_once 0 1
WaitReach-IsTold_example = WaitReach-IsTold 0 1 stopped_once-WaitReach
