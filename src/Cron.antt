-- ===== src/Cron.antt =====
-- cron/cron.go: the scheduler. A call on a running scheduler is a message to its loop; a stopped
-- one changes its entries at once. Times are numbers, nanoseconds of the clock; what `startJob`
-- starts is recorded in the order of the calls.
pub mod Entries
pub mod Chain
pub mod Skip
pub mod Delay
pub mod Ticks
pub mod Invariant
pub mod Reach
pub mod Calls
pub mod Setup
pub mod Waiting
pub mod Recover
use go_dispatch.Base.Outcome.{out_of_fuel, Outcome, ok, err, panic, ◌>>=◌, or_panic}
use go_dispatch.Base.Sorting.{sort}
use go_dispatch.Cron.Chain.{JobWrapper, chain_then}
use go_dispatch.Cron.Entries.{Entry, EntryId, less, remove_entry, run_due, schedule_all, find_entry}
use go_dispatch.Base.Shared.{
  if◌then◌else◌, set, ℕ, zero, ◌+◌, ◌-◌, ◌*◌, ◌/◌, Bool, true, false, not, Option, none, some, List,
  [], ◌∷◌, ◌++◌,
}

-- A call that never returns.
pub data Wait : Type 0 where
  blocked : Wait

-- `reset_made` tells whether the channel `reset` was made; `New` leaves it nil.
pub record Cron : Type 0 where
  pub entries : List Entry
  pub chain : List JobWrapper
  pub running : Bool
  pub next_id : EntryId
  pub reset_made : Bool
  pub started : List ℕ

unfoldable pub new : List JobWrapper → Cron
new wrappers = record {
  entries = [];
  chain = wrappers;
  running = false;
  next_id = 0;
  reset_made = false;
  started = [];
}

-- What the loop's `select` receives. A time is what the clock showed then.
pub data Event : Type 0 where
  tick : ℕ → Event
  added : ℕ → Entry → Event
  removed : EntryId → Event
  cleared stopped snapshot : Event

-- The head of the loop: the entries in the order of their next activation.
abbrev sorted : Cron → Cron
sorted c = record c { entries = sort less c.entries }

-- How long the timer is set for at the time `now`; without an entry to wait for, 100000 hours.
unfoldable pub timer_of : ℕ → List Entry → ℕ
timer_of now [] = 100000 * 3600 * 1000000000
timer_of now (e ∷ es) = elim e.next [ none ↦ 100000 * 3600 * 1000000000 | some t ↦ t - now ]

-- One case of the `select`, up to the next one. A snapshot goes back without sorting.
unfoldable pub handle : Cron → Event → Cron
handle c (tick now) =
    let (entries, jobs) = run_due now c.entries in
    sorted (record c { entries = entries; started = c.started ++ jobs })
handle c (added now e) =
    sorted (record c { entries = c.entries ++ record e { next = e.schedule now } ∷ [] })
handle c (removed id) = sorted (record c { entries = remove_entry id c.entries })
handle c cleared = sorted (record c { entries = [] })
handle c stopped = record c { running = false }
handle c snapshot = c

-- `Schedule` on the clock's time `now`.
unfoldable pub schedule : ℕ → Cron → (ℕ → Option ℕ) → ℕ → Outcome Wait (EntryId × Cron)
unfolding handle
schedule now c sched cmd = do
  wrapped ← or_panic (chain_then c.chain cmd)
  let id = c.next_id + 1
  let entry : Entry = record {
    id = id;
    schedule = sched;
    next = none;
    prev = none;
    wrapped_job = wrapped;
    job = cmd;
  }
  let counted = record c { next_id = id }
  let waiting = record counted { entries = c.entries ++ entry ∷ [] }
  ok (id, if c.running then handle counted (added now entry) else waiting)

-- `AddJob`, where the parser answers with an error or a schedule.
unfoldable pub add_job {ℓ} :
    {E : Type ℓ} → ℕ → Cron → Outcome E (ℕ → Option ℕ) → ℕ → Outcome Wait (Outcome E EntryId × Cron)
unfolding schedule
add_job now c parsed cmd = elim parsed [
  | ok sched ↦ schedule now c sched cmd >>= λ (id, c'). ok (ok id, c')
  | err e ↦ ok (err e, c)
  | panic ↦ panic
  | out_of_fuel ↦ out_of_fuel
]

-- A send on the nil channel never returns.
unfoldable pub reset_entries : Cron → Outcome Wait Cron
unfolding handle
reset_entries c =
    if c.running
    then (if c.reset_made then ok (handle c cleared) else err blocked)
    else ok (record c { entries = [] })

unfoldable pub remove : Cron → EntryId → Cron
unfolding handle
remove c id =
    if c.running then handle c (removed id) else record c { entries = remove_entry id c.entries }

-- `Entries`, a copy of the entries whether the scheduler runs or not.
unfoldable pub entries_of : Cron → List Entry
entries_of c = c.entries

-- `Entry`, with `none` for the zero entry.
unfoldable pub entry_of : Cron → EntryId → Option Entry
unfolding entries_of
entry_of c id = find_entry id (entries_of c)

-- `Start` and `Run` up to the first `select`.
unfoldable pub start : ℕ → Cron → Cron
start now c =
    if c.running
    then c
    else sorted (record c { running = true; entries = schedule_all now c.entries })

unfoldable pub stop : Cron → Cron
unfolding handle
stop c = if c.running then handle c stopped else c
