-- ===== src/Cron/Skip.antt =====
-- cron/chain.go: SkipIfStillRunning, as the steps of the calls of one wrapped job. Each call runs
-- on a goroutine of its own; the job returns or panics at any time.
use go_dispatch.Base.Shared.{
  get_elem?, set, count_by, count_by-append, count_by-set, ℕ, ◌+◌, ◌-◌, ◌≤◌, ◌<◌, ◌≡◌, refl, ◌↔◌,
  Bool, true, false, ◌||◌, some, List, [], ◌∷◌, ◌++◌, arith,
}

-- Where a call stands: before the `select`, in `j.Run`, before the deferred send, or at its end.
pub data SkipPhase : Type 0 where
  called running leaving finished skipped : SkipPhase

-- `channel` is how many values the channel `ch` holds.
pub record SkipState : Type 0 where
  pub channel : ℕ
  pub calls : List SkipPhase

-- What a call does with the channel, which holds one value at most.
pub data SkipMove (n : ℕ) : SkipPhase → ℕ → SkipPhase → Type 0 where
  receive : 0 < n → SkipMove n called (n - 1) running
  skip : n ≡ 0 → SkipMove n called n skipped
  finish : SkipMove n running n leaving
  send : n < 1 → SkipMove n leaving (n + 1) finished

-- The scheduler calls the job, or a call makes its next move.
pub data SkipStep (s : SkipState) : SkipState → Type 0 where
  invoke : SkipStep s (record s { calls = s.calls ++ called ∷ [] })
  move :
      (i : ℕ) {p : SkipPhase} {n : ℕ} {q : SkipPhase}
      → get_elem? s.calls i ≡ some p
      → SkipMove s.channel p n q
      → SkipStep s (record { channel = n; calls = set s.calls i q })

-- The wrapper makes the channel and sends the value that stands for the right to run.
pub data SkipReach : SkipState → Type 0 where
  wrapped : SkipReach (record { channel = 1; calls = [] })
  later : {s t : SkipState} → SkipReach s → SkipStep s t → SkipReach t

abbrev pub is_running : SkipPhase → Bool
is_running running = true
is_running called = false
is_running leaving = false
is_running finished = false
is_running skipped = false

abbrev pub is_leaving : SkipPhase → Bool
is_leaving leaving = true
is_leaving called = false
is_leaving running = false
is_leaving finished = false
is_leaving skipped = false

abbrev is_busy : SkipPhase → Bool
is_busy p = is_running p || is_leaving p

busy_count :
    (ps : List SkipPhase) → count_by is_busy ps ≡ count_by is_running ps + count_by is_leaving ps
busy_count [] = refl
busy_count (called ∷ ps) = ground (arith, busy_count ps)
busy_count (running ∷ ps) = ground (arith, busy_count ps)
busy_count (leaving ∷ ps) = ground (arith, busy_count ps)
busy_count (finished ∷ ps) = ground (arith, busy_count ps)
busy_count (skipped ∷ ps) = ground (arith, busy_count ps)

-- One value in all: in the channel or with the call that took it.
abbrev OneToken : SkipState → Type 0
OneToken s = s.channel + count_by is_busy s.calls ≡ 1

SkipStep-OneToken : {s t : SkipState} → SkipStep s t → OneToken s → OneToken t
SkipStep-OneToken {s} invoke h = ground (arith, count_by-append is_busy s.calls (called ∷ []))
SkipStep-OneToken {s} (move i at (receive some_value)) h =
    ground (arith, count_by-set is_busy s.calls i called running at)
SkipStep-OneToken {s} (move i at (skip empty)) h =
    ground (arith, count_by-set is_busy s.calls i called skipped at)
SkipStep-OneToken {s} (move i at finish) h =
    ground (arith, count_by-set is_busy s.calls i running leaving at)
SkipStep-OneToken {s} (move i at (send room)) h =
    ground (arith, count_by-set is_busy s.calls i leaving finished at)

SkipReach-OneToken : {s : SkipState} → SkipReach s → OneToken s
SkipReach-OneToken wrapped = refl
SkipReach-OneToken (later r st) = SkipStep-OneToken st (SkipReach-OneToken r)

pub record IsExclusive (s : SkipState) : Type 0 where
  pub at_most_one : count_by is_running s.calls ≤ 1
  pub sends : 0 < count_by is_leaving s.calls → s.channel < 1
  pub skips : s.channel ≡ 0 ↔ (count_by is_running s.calls + count_by is_leaving s.calls ≡ 1)

-- However the calls of a job behind SkipIfStillRunning interleave, and whether they return or
-- panic: at most one runs, a call that ends never waits for room in the channel, and a call finds
-- the channel empty, so that it is skipped, just when another call runs or is about to end.
pub SkipReach-IsExclusive : {s : SkipState} → SkipReach s → IsExclusive s
SkipReach-IsExclusive {s} r =
    let token = SkipReach-OneToken r in
    let parts = busy_count s.calls in
    record {
      at_most_one = omega (arith, token, parts);
      sends = λ h. omega (arith, token, parts);
      skips = ((λ e. omega (arith, token, parts)), λ e. omega (arith, token, parts));
    }
