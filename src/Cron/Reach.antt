-- ===== src/Cron/Reach.antt =====
-- Every reachable scheduler keeps its invariant, whatever calls and ticks it sees.
use go_dispatch.Base.Outcome.{out_of_fuel, Outcome, ok, err, panic}
use go_dispatch.Base.Sorting.{sort}
use go_dispatch.Cron.{
  Cron, Wait, handle, tick, added, schedule, remove, reset_entries, start, stop, new,
}
use go_dispatch.Cron.Chain.{JobWrapper, chain_then-wrap_all, wrap_all}
use go_dispatch.Cron.Entries.{Entry, EntryId, remove_entry, schedule_all}
use go_dispatch.Cron.Ticks.{fire_due, due_jobs, run_due-fire_due}
use go_dispatch.Cron.Invariant.{
  ids, IsGiven, IsScheduler, sorted-IsScheduler, fire_due-IsGiven, ids-fire_due,
  remove_entry-IsGiven, count-remove_entry, schedule_all-IsGiven, ids-schedule_all,
  appended-IsGiven, appended-distinct, Step, scheduled, dropped, ticked, emptied, begun, halted,
}
use go_dispatch.Base.Shared.{
  if◌then◌else◌, All, count, ℕ, ◌+◌, ◌≤◌, ◌≡◌, refl, sym, ap, ◌∙◌, Bool, true, false, Option, none,
  List, [], ◌∷◌, ◌++◌, arith,
}

tick-IsScheduler :
    (c : Cron) (now : ℕ) → c.running ≡ true → IsScheduler c → IsScheduler (handle c (tick now))
unfolding handle
tick-IsScheduler c now runs h = rw (run_due-fire_due now c.entries (h.ordered runs)) (
    sorted-IsScheduler
      (record c { entries = fire_due now c.entries; started = c.started ++ due_jobs now c.entries })
      (fire_due now c.entries) (fire_due-IsGiven now c.next_id c.entries h.given)
      (λ id. rw (ids-fire_due now c.entries) (h.distinct id)))

-- A conditional keeps the invariant if both branches do.
if-IsScheduler :
    (b : Bool) (x y : Cron)
    → (b ≡ true → IsScheduler x)
    → (b ≡ false → IsScheduler y)
    → IsScheduler (if b then x else y)
if-IsScheduler true x y f g = f refl
if-IsScheduler false x y f g = g refl

pub remove-IsScheduler : (c : Cron) (id : EntryId) → IsScheduler c → IsScheduler (remove c id)
unfolding remove
remove-IsScheduler c id h =
    if-IsScheduler c.running _ _
      (λ _. sorted-IsScheduler c (remove_entry id c.entries) given distinct)
      (λ idle. record { given = given; distinct = distinct; ordered = λ runs. cc })
  where
    given : All (IsGiven c.next_id) (remove_entry id c.entries)
    given = remove_entry-IsGiven id c.next_id c.entries h.given

    distinct : (j : EntryId) → count j (ids (remove_entry id c.entries)) ≤ 1
    distinct j = ground (arith, count-remove_entry j id c.entries, h.distinct j)

start-IsScheduler : (c : Cron) (now : ℕ) → IsScheduler c → IsScheduler (start now c)
unfolding start
start-IsScheduler c now h =
    if-IsScheduler c.running _ _ (λ _. h)
      (λ _.
        sorted-IsScheduler (record c { running = true }) (schedule_all now c.entries)
          (schedule_all-IsGiven now c.next_id c.entries h.given)
          (λ id. rw (ids-schedule_all now c.entries) (h.distinct id)))

stop-IsScheduler : (c : Cron) → IsScheduler c → IsScheduler (stop c)
unfolding stop
stop-IsScheduler c h =
    if-IsScheduler c.running _ _
      (λ _. record { given = h.given; distinct = h.distinct; ordered = λ runs. cc }) (λ _. h)

empty-IsScheduler : (c : Cron) → IsScheduler (record c { entries = [] })
empty-IsScheduler c = record { given = tt; distinct = λ id. omega arith; ordered = λ _. tt }

reset_entries-IsScheduler : (c c' : Cron) → reset_entries c ≡ ok c' → IsScheduler c → IsScheduler c'
unfolding reset_entries sort
reset_entries-IsScheduler c c' e h =
    let it : c' ≡ record c { entries = [] } = ground arith in rw it (empty-IsScheduler c)

-- The entry that `Schedule` makes, before the loop sees it.
abbrev pub new_entry : Cron → (ℕ → Option ℕ) → ℕ → Entry
new_entry c sched cmd = record {
  id = c.next_id + 1;
  schedule = sched;
  next = none;
  prev = none;
  wrapped_job = wrap_all c.chain cmd;
  job = cmd;
}

-- The scheduler after `Schedule`.
abbrev pub after_schedule : ℕ → Cron → (ℕ → Option ℕ) → ℕ → Cron
after_schedule now c sched cmd =
    let counted = record c { next_id = c.next_id + 1 } in
    if c.running
    then handle counted (added now (new_entry c sched cmd))
    else record counted { entries = c.entries ++ new_entry c sched cmd ∷ [] }

pub schedule_lem :
    (now : ℕ) (c : Cron) (sched : ℕ → Option ℕ) (cmd : ℕ)
    → schedule now c sched cmd ≡ ok (c.next_id + 1, after_schedule now c sched cmd)
unfolding schedule
schedule_lem now c sched cmd = rw (chain_then-wrap_all c.chain cmd)

pub after_schedule-IsScheduler :
    (now : ℕ) (c : Cron) (sched : ℕ → Option ℕ) (cmd : ℕ)
    → IsScheduler c
    → IsScheduler (after_schedule now c sched cmd)
unfolding handle
after_schedule-IsScheduler now c sched cmd h =
    let e = new_entry c sched cmd in
    let e' : Entry = record e { next = sched now } in
    if-IsScheduler c.running _ _
      (λ _.
        sorted-IsScheduler (record c { next_id = c.next_id + 1 }) (c.entries ++ e' ∷ [])
          (appended-IsGiven c e' h refl) (appended-distinct c e' h refl))
      (λ idle. record {
        given = appended-IsGiven c e h refl;
        distinct = appended-distinct c e h refl;
        ordered = λ runs. cc;
      })

-- The scheduler an answer of `Schedule` holds.
scheduler_in : Cron → Outcome Wait (EntryId × Cron) → Cron
scheduler_in c (ok (id, d)) = d
scheduler_in c (err e) = c
scheduler_in c panic = c
scheduler_in c out_of_fuel = c

pub ok_scheduler :
    (a b : EntryId) (c d : Cron) (o : Outcome Wait (EntryId × Cron))
    → o ≡ ok (a, c)
    → o ≡ ok (b, d)
    → d ≡ c
unfolding scheduler_in
ok_scheduler a b c d o e e' = sym (ap (scheduler_in c) e') ∙ ap (scheduler_in c) e

Step-IsScheduler : (c c' : Cron) → Step c c' → IsScheduler c → IsScheduler c'
Step-IsScheduler c c' (scheduled now sched cmd id e) h =
    let it =
      ok_scheduler (c.next_id + 1) id (after_schedule now c sched cmd) c' (schedule now c sched cmd)
        (schedule_lem now c sched cmd) e in
    rw it (after_schedule-IsScheduler now c sched cmd h)
Step-IsScheduler c c' (dropped id e) h = rw e (remove-IsScheduler c id h)
Step-IsScheduler c c' (ticked now runs e) h = rw e (tick-IsScheduler c now runs h)
Step-IsScheduler c c' (emptied e) h = reset_entries-IsScheduler c c' e h
Step-IsScheduler c c' (begun now e) h = rw e (start-IsScheduler c now h)
Step-IsScheduler c c' (halted e) h = rw e (stop-IsScheduler c h)

-- The schedulers that a new one becomes.
pub data Reach (wrappers : List JobWrapper) : Cron → Type 0 where
  made : Reach wrappers (new wrappers)
  followed : {c c' : Cron} → Reach wrappers c → Step c c' → Reach wrappers c'

-- Whatever calls return and whatever ticks come, in any order, from a new scheduler on: the
-- entries have identifiers that differ and were given out, and while the scheduler runs they
-- stand in the order of their next activation.
pub Reach-IsScheduler : (wrappers : List JobWrapper) {c : Cron} → Reach wrappers c → IsScheduler c
unfolding new
Reach-IsScheduler wrappers made = record {
  given = tt;
  distinct = λ id. omega arith;
  ordered = λ _. tt;
}
Reach-IsScheduler wrappers (followed {c = c} {c' = c'} r s) =
    Step-IsScheduler c c' s (Reach-IsScheduler wrappers r)
