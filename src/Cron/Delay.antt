-- ===== src/Cron/Delay.antt =====
-- cron/chain.go: DelayIfStillRunning, as the steps of the calls of one wrapped job. Each call runs
-- on a goroutine of its own; the job returns or panics at any time.
use go_dispatch.Base.Shared.{
  if◌then◌else◌, Bool-cases, get_elem?, set, count_by, count_by-append, count_by-set, count_by-find,
  ℕ, ◌≤◌, ◌<◌, ◌≡◌, refl, inl, inr, Bool, true, false, not, some, List, [], ◌∷◌, ◌++◌, arith,
}

-- Where a call stands: before the lock, in `j.Run`, before the deferred unlock, or at its end.
pub data DelayPhase : Type 0 where
  waiting working unlocking over : DelayPhase

-- `locked` is the state of the mutex `mu`.
pub record DelayState : Type 0 where
  pub locked : Bool
  pub calls : List DelayPhase

pub data DelayMove (held : Bool) : DelayPhase → Bool → DelayPhase → Type 0 where
  lock : held ≡ false → DelayMove held waiting true working
  finish : DelayMove held working held unlocking
  unlock : DelayMove held unlocking false over

-- The scheduler calls the job, or a call makes its next move.
pub data DelayStep (s : DelayState) : DelayState → Type 0 where
  invoke : DelayStep s (record s { calls = s.calls ++ waiting ∷ [] })
  move :
      (i : ℕ) {p : DelayPhase} {held : Bool} {q : DelayPhase}
      → get_elem? s.calls i ≡ some p
      → DelayMove s.locked p held q
      → DelayStep s (record { locked = held; calls = set s.calls i q })

pub data DelayReach : DelayState → Type 0 where
  wrapped : DelayReach (record { locked = false; calls = [] })
  later : {s t : DelayState} → DelayReach s → DelayStep s t → DelayReach t

abbrev pub is_working : DelayPhase → Bool
is_working working = true
is_working waiting = false
is_working unlocking = false
is_working over = false

abbrev pub is_over : DelayPhase → Bool
is_over over = true
is_over waiting = false
is_over working = false
is_over unlocking = false

-- The call has locked the mutex.
abbrev holds : DelayPhase → Bool
holds working = true
holds unlocking = true
holds waiting = false
holds over = false

-- The mutex is locked by one call, or by none.
abbrev OneHolder : DelayState → Type 0
OneHolder s = count_by holds s.calls ≡ (if s.locked then 1 else 0)

DelayStep-OneHolder : {s t : DelayState} → DelayStep s t → OneHolder s → OneHolder t
DelayStep-OneHolder {s} invoke h = ground (arith, count_by-append holds s.calls (waiting ∷ []))
DelayStep-OneHolder {s} (move i at (lock free)) h =
    ground (arith, count_by-set holds s.calls i waiting working at)
DelayStep-OneHolder {s} (move i at finish) h =
    ground (arith, count_by-set holds s.calls i working unlocking at)
DelayStep-OneHolder {s} (move i at unlock) h =
    ground (arith, count_by-set holds s.calls i unlocking over at)

DelayReach-OneHolder : {s : DelayState} → DelayReach s → OneHolder s
DelayReach-OneHolder wrapped = refl
DelayReach-OneHolder (later r st) = DelayStep-OneHolder st (DelayReach-OneHolder r)

working_holds : (ps : List DelayPhase) → count_by is_working ps ≤ count_by holds ps
working_holds [] = omega arith
working_holds (waiting ∷ ps) = ground (arith, working_holds ps)
working_holds (working ∷ ps) = ground (arith, working_holds ps)
working_holds (unlocking ∷ ps) = ground (arith, working_holds ps)
working_holds (over ∷ ps) = ground (arith, working_holds ps)

-- A call can make its next move.
abbrev pub CanMove : DelayState → Type 0
CanMove s =
    (i : ℕ) × (p : DelayPhase) × (held : Bool) × (q : DelayPhase) × (get_elem? s.calls i ≡ some p)
    × DelayMove s.locked p held q

holder_moves :
    (s : DelayState) (i : ℕ) (p : DelayPhase)
    → get_elem? s.calls i ≡ some p
    → holds p ≡ true
    → CanMove s
holder_moves s i waiting at h = absurd cc
holder_moves s i working at h = (i, working, s.locked, unlocking, at, finish)
holder_moves s i unlocking at h = (i, unlocking, false, over, at, unlock)
holder_moves s i over at h = absurd cc

free_moves :
    (s : DelayState) (i : ℕ) (p : DelayPhase)
    → s.locked ≡ false
    → get_elem? s.calls i ≡ some p
    → not (is_over p) ≡ true
    → CanMove s
free_moves s i waiting free at h = (i, waiting, true, working, at, lock free)
free_moves s i working free at h = (i, working, s.locked, unlocking, at, finish)
free_moves s i unlocking free at h = (i, unlocking, false, over, at, unlock)
free_moves s i over free at h = absurd cc

pub record IsSerial (s : DelayState) : Type 0 where
  pub at_most_one : count_by is_working s.calls ≤ 1
  pub moves : 0 < count_by (λ p. not (is_over p)) s.calls → CanMove s

-- However the calls of a job behind DelayIfStillRunning interleave, and whether they return or
-- panic: at most one runs at a time, and as long as a call has not come to its end, some call can
-- make its next move.
pub DelayReach-IsSerial : {s : DelayState} → DelayReach s → IsSerial s
DelayReach-IsSerial {s} r =
    let one = DelayReach-OneHolder r in
    record {
      at_most_one = ground (arith, one, working_holds s.calls);
      moves = λ left. elim (Bool-cases s.locked) [
        | inl taken ↦
            let (i, p, at, mine) = count_by-find holds s.calls (ground (arith, one, taken)) in
            holder_moves s i p at mine
        | inr free ↦
            let (i, p, at, undone) = count_by-find (λ p. not (is_over p)) s.calls left in
            free_moves s i p free at undone
      ];
    }
