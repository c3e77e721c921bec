-- ===== src/Cron/Waiting.antt =====
-- cron/cron.go: startJob and the context that Stop returns, as the steps of the goroutines that
-- they start. The WaitGroup is its counter; a job returns or panics at any time.
use go_dispatch.Base.Keys.{text_eq, nat_eq}
use go_dispatch.Base.Shared.{
  All-mono, All-set, All-get_elem?, length-set, length, get_elem?, set, All, length-append,
  All-append, count_by, count_by-append, count_by-set, ℕ, zero, suc, ◌+◌, ◌-◌, ◌≤◌, ◌<◌, ◌≡◌, refl,
  sym, ◌∙◌, Bool, true, false, some, List, [], ◌∷◌, ◌++◌, arith,
}

-- A goroutine of startJob: in `j.Run`, before the deferred Done, or at its end.
pub data JobPhase : Type 0 where
  in_run returned over : JobPhase

-- A goroutine of Stop: in `jobWaiter.Wait`, before `cancel`, or at its end.
pub data StopPhase : Type 0 where
  in_wait awake cancelled : StopPhase

-- The jobs in the order in which they were started, the counter of `jobWaiter`, and each call of
-- Stop with the number of jobs that were started before it.
pub record WaitState : Type 0 where
  pub jobs : List JobPhase
  pub counter : ℕ
  pub stops : List (ℕ × StopPhase)

-- The loop of the scheduler starts a job, a client calls Stop, or a goroutine makes its next move.
pub data WaitStep (s : WaitState) : WaitState → Type 0 where
  start_job : WaitStep s (record s { counter = s.counter + 1; jobs = s.jobs ++ in_run ∷ [] })
  finish :
      (i : ℕ)
      → get_elem? s.jobs i ≡ some in_run
      → WaitStep s (record s { jobs = set s.jobs i returned })
  done_job :
      (i : ℕ)
      → get_elem? s.jobs i ≡ some returned
      → WaitStep s (record s { counter = s.counter - 1; jobs = set s.jobs i over })
  stop_called : WaitStep s (record s { stops = s.stops ++ (length s.jobs, in_wait) ∷ [] })
  wake :
      (k n : ℕ)
      → get_elem? s.stops k ≡ some (n, in_wait)
      → s.counter ≡ 0
      → WaitStep s (record s { stops = set s.stops k (n, awake) })
  cancel :
      (k n : ℕ)
      → get_elem? s.stops k ≡ some (n, awake)
      → WaitStep s (record s { stops = set s.stops k (n, cancelled) })

pub data WaitReach : WaitState → Type 0 where
  nothing_started : WaitReach (record { jobs = []; counter = 0; stops = [] })
  later : {s t : WaitState} → WaitReach s → WaitStep s t → WaitReach t

abbrev pub is_open : JobPhase → Bool
is_open in_run = true
is_open returned = true
is_open over = false

-- The first `n` jobs have come to their end.
abbrev pub AreOver : List JobPhase → ℕ → Type 0
AreOver jobs n = (i : ℕ) → i < n → get_elem? jobs i ≡ some over

abbrev pub is_asleep : StopPhase → Bool
is_asleep in_wait = true
is_asleep awake = false
is_asleep cancelled = false

get_elem?-append :
    (jobs more : List JobPhase) (i : ℕ)
    → get_elem? jobs i ≡ some over
    → get_elem? (jobs ++ more) i ≡ some over
get_elem?-append [] more i e = absurd cc
get_elem?-append (_ ∷ jobs) more zero e = e
get_elem?-append (_ ∷ jobs) more (suc i) e = get_elem?-append jobs more i e

-- A job that is over is not the one that moves.
get_elem?-set :
    (jobs : List JobPhase) (i j : ℕ) (p q : JobPhase)
    → get_elem? jobs j ≡ some p
    → is_open p ≡ true
    → get_elem? jobs i ≡ some over
    → get_elem? (set jobs j q) i ≡ some over
get_elem?-set [] i j p q at busy e = absurd cc
get_elem?-set (_ ∷ jobs) zero zero p q at busy e = absurd cc
get_elem?-set (_ ∷ jobs) zero (suc j) p q at busy e = e
get_elem?-set (_ ∷ jobs) (suc i) zero p q at busy e = e
get_elem?-set (_ ∷ jobs) (suc i) (suc j) p q at busy e = get_elem?-set jobs i j p q at busy e

none_open : (jobs : List JobPhase) → count_by is_open jobs ≡ 0 → AreOver jobs (length jobs)
none_open [] h i below = absurd (omega arith)
none_open (over ∷ jobs) h zero below = refl
none_open (over ∷ jobs) h (suc i) below = none_open jobs h i (omega arith)
none_open (in_run ∷ jobs) h i below = absurd (omega arith)
none_open (returned ∷ jobs) h i below = absurd (omega arith)

-- A call of Stop counts no job that comes later, and has not woken before the jobs were over.
abbrev Holds : List JobPhase → ℕ × StopPhase → Type 0
Holds jobs (n, phase) = (n ≤ length jobs) × (is_asleep phase ≡ false → AreOver jobs n)

record IsWaiting (s : WaitState) : Type 0 where
  counts : s.counter ≡ count_by is_open s.jobs
  holds : All (Holds s.jobs) s.stops

-- A goroutine of a job moves on.
job_moves :
    (jobs : List JobPhase) (i : ℕ) (p q : JobPhase) (stops : List (ℕ × StopPhase))
    → get_elem? jobs i ≡ some p
    → is_open p ≡ true
    → All (Holds jobs) stops
    → All (Holds (set jobs i q)) stops
job_moves jobs i p q stops at busy h =
    All-mono _ _ stops
      (λ (n, phase) (below, ended). (
        omega (arith, below, length-set jobs i q),
        λ woken j first. get_elem?-set jobs j i p q at busy (ended woken j first),
      ))
      h

WaitStep-IsWaiting : {s t : WaitState} → WaitStep s t → IsWaiting s → IsWaiting t
WaitStep-IsWaiting {s} start_job h = record {
  counts = ground (arith, h.counts, count_by-append is_open s.jobs (in_run ∷ []));
  holds =
      All-mono _ _ s.stops
        (λ (n, phase) (below, ended). (
          omega (arith, below, length-append s.jobs (in_run ∷ [])),
          λ woken j first. get_elem?-append s.jobs (in_run ∷ []) j (ended woken j first),
        ))
        h.holds;
}
WaitStep-IsWaiting {s} (finish i at) h = record {
  counts = ground (arith, h.counts, count_by-set is_open s.jobs i in_run returned at);
  holds = job_moves s.jobs i in_run returned s.stops at refl h.holds;
}
WaitStep-IsWaiting {s} (done_job i at) h = record {
  counts = ground (arith, h.counts, count_by-set is_open s.jobs i returned over at);
  holds = job_moves s.jobs i returned over s.stops at refl h.holds;
}
WaitStep-IsWaiting {s} stop_called h = record {
  counts = h.counts;
  holds = All-append (Holds s.jobs) s.stops _ h.holds ((omega arith, λ woken. absurd cc), tt);
}
WaitStep-IsWaiting {s} (wake k n at zero_left) h =
    let (below, ended) = All-get_elem? (Holds s.jobs) s.stops k (n, in_wait) h.holds at in
    let all_over = none_open s.jobs (sym h.counts ∙ zero_left) in
    record {
      counts = h.counts;
      holds =
          All-set (Holds s.jobs) s.stops k (n, awake) h.holds
            (below, λ woken j first. all_over j (omega (arith, below, first)));
    }
WaitStep-IsWaiting {s} (cancel k n at) h =
    let (below, ended) = All-get_elem? (Holds s.jobs) s.stops k (n, awake) h.holds at in
    record {
      counts = h.counts;
      holds = All-set (Holds s.jobs) s.stops k (n, cancelled) h.holds (below, λ woken. ended refl);
    }

WaitReach-IsWaiting : {s : WaitState} → WaitReach s → IsWaiting s
WaitReach-IsWaiting nothing_started = record { counts = refl; holds = tt }
WaitReach-IsWaiting (later r step) = WaitStep-IsWaiting step (WaitReach-IsWaiting r)

-- What the context of the call `k` of Stop, which came after `n` jobs, tells.
pub record IsTold (s : WaitState) (k n : ℕ) : Type 0 where
  pub safe : get_elem? s.stops k ≡ some (n, cancelled) → AreOver s.jobs n
  pub live :
      get_elem? s.stops k ≡ some (n, in_wait)
      → AreOver s.jobs (length s.jobs)
      → WaitStep s (record s { stops = set s.stops k (n, awake) })

all_over-count : (jobs : List JobPhase) → AreOver jobs (length jobs) → count_by is_open jobs ≡ 0
all_over-count [] h = refl
all_over-count (p ∷ jobs) h =
    let here : some p ≡ some over = h 0 (omega arith) in
    ground (arith, all_over-count jobs (λ i below. h (suc i) (omega arith)))

-- However the scheduler's jobs and the calls of Stop interleave: once the context of a call of Stop
-- is done, every job that was started before that call has come to its end, returned or panicked.
-- And when every job has come to its end, the goroutine that waits for them can go on.
pub WaitReach-IsTold : {s : WaitState} (k n : ℕ) → WaitReach s → IsTold s k n
WaitReach-IsTold {s} k n r =
    let h = WaitReach-IsWaiting r in
    record {
      safe = λ at. (All-get_elem? (Holds s.jobs) s.stops k (n, cancelled) h.holds at).1 refl;
      live = λ at ended. wake k n at (h.counts ∙ all_over-count s.jobs ended);
    }
