-- ===== src/Cron/Calls.antt =====
-- What a client sees of Schedule and Remove, and of Reset on a running scheduler.
use go_dispatch.Cron.{new, remove}
use go_dispatch.Base.Sorting.{All-sort, count-map-sort, sort}
use go_dispatch.Base.Outcome.{ok, err, Returns}
use go_dispatch.Cron.Reach.{
  ok_scheduler, new_entry, schedule_lem, made, followed, after_schedule, Reach,
}
use go_dispatch.Cron.Chain.{JobWrapper}
use go_dispatch.Cron.Invariant.{
  IsGiven, halted, begun, emptied, ticked, dropped, fresh_absent, ids-append, scheduled,
  count-remove_entry, Step, ids, IsScheduler,
}
use go_dispatch.Cron.Entries.{less, remove_entry, EntryId, Entry, find_entry}
use go_dispatch.Cron.{
  blocked, schedule, stop, start, entries_of, entry_of, reset_entries, handle, Cron,
}
use go_dispatch.Base.Shared.{
  ltb, ◌==◌, if◌then◌else◌, ==_iff, Bool-cases, Option-cases, is_some, All-mono, All, All-append,
  count, count-append, ℕ, ◌+◌, ◌≡◌, refl, sym, ap, ◌∙◌, inl, inr, true, false, Option, none, some,
  List, [], ◌∷◌, ◌++◌, arith,
}

-- An identifier is found just when an entry has it.
find_entry-count :
    (id : EntryId) (es : List Entry) → is_some (find_entry id es) ≡ ltb 0 (count id (ids es))
unfolding find_entry
find_entry-count id [] = refl
find_entry-count id (e ∷ es) = ground (arith, find_entry-count id es)

entry_of-count :
    (c : Cron) (id : EntryId) → is_some (entry_of c id) ≡ ltb 0 (count id (ids c.entries))
unfolding entry_of entries_of
entry_of-count c id = find_entry-count id c.entries

ids-sort : (es : List Entry) (id : EntryId) → count id (ids (sort less es)) ≡ count id (ids es)
ids-sort es id = count-map-sort less (λ (e : Entry). e.id) id es

remove-count :
    (c : Cron) (id j : EntryId)
    → count j (ids (remove c id).entries) ≡ (if id == j then 0 else count j (ids c.entries))
unfolding remove handle
remove-count c id j = elim (Bool-cases c.running) [
  | inl runs ↦ rw runs (ids-sort (remove_entry id c.entries) j ∙ count-remove_entry j id c.entries)
  | inr idle ↦ rw idle (count-remove_entry j id c.entries)
]

-- After `remove` the identifier is not found, and every other one is found just when it was
-- before, whether the scheduler runs or not.
pub remove-entry_of :
    (c : Cron) (id j : EntryId)
    → is_some (entry_of (remove c id) j) ≡ (if id == j then false else is_some (entry_of c j))
remove-entry_of c id j =
    ground (arith, entry_of-count (remove c id) j, entry_of-count c j, remove-count c id j)

after_schedule-count :
    (now : ℕ) (c : Cron) (sched : ℕ → Option ℕ) (cmd : ℕ) (j : EntryId)
    → count j (ids (after_schedule now c sched cmd).entries)
      ≡ count j (ids c.entries) + (if c.next_id + 1 == j then 1 else 0)
unfolding handle
after_schedule-count now c sched cmd j =
    let e = new_entry c sched cmd in
    let e' : Entry = record e { next = sched now } in
    elim (Bool-cases c.running) [
      | inl runs ↦ rw runs (
          ids-sort (c.entries ++ e' ∷ []) j
          ∙ rw (ids-append c.entries (e' ∷ []))
              (count-append j (ids c.entries) (e'.id ∷ []) ∙ ground arith))
      | inr idle ↦ rw idle (
          rw (ids-append c.entries (e ∷ []))
            (count-append j (ids c.entries) (e.id ∷ []) ∙ ground arith))
    ]

-- The scheduler after `Schedule` gave out the identifier `id`.
abbrev pub IsScheduled : Cron → EntryId × Cron → Type 0
IsScheduled c (id, c') =
    (is_some (entry_of c id) ≡ false)
    × ((j : EntryId) → is_some (entry_of c' j) ≡ (if id == j then true else is_some (entry_of c j)))

pub after_schedule-IsScheduled :
    (now : ℕ) (c : Cron) (sched : ℕ → Option ℕ) (cmd : ℕ)
    → IsScheduler c
    → IsScheduled c (c.next_id + 1, after_schedule now c sched cmd)
after_schedule-IsScheduled now c sched cmd h = (
  ground (
    arith,
    entry_of-count c (c.next_id + 1),
    fresh_absent c.next_id (c.next_id + 1) c.entries h.given,
  ),
  λ j. ground (
    arith,
    entry_of-count (after_schedule now c sched cmd) j,
    entry_of-count c j,
    after_schedule-count now c sched cmd j,
  ),
)

-- What a new entry has, on an entry of its identifier.
abbrev IsNew : Cron → (ℕ → Option ℕ) → ℕ → Entry → Type 0
IsNew c sched cmd e = e.id ≡ c.next_id + 1 → (e.schedule ≡ sched) × (e.job ≡ cmd)

found_entry :
    (P : Entry → Type 0) (id : EntryId) (es : List Entry)
    → All P es
    → is_some (find_entry id es) ≡ true
    → (e : Entry) × (find_entry id es ≡ some e) × (e.id ≡ id) × P e
unfolding find_entry
found_entry P id [] h there = absurd cc
found_entry P id (e ∷ es) h there = elim (Bool-cases (id == e.id)) [
  | inl same ↦ (e, rw same refl, sym ((==_iff id e.id).0 same), h.0)
  | inr other ↦
      let (e', at, named, p) =
        found_entry P id es h.1
          (ap (λ b. is_some (if b then some e else find_entry id es)) (sym other) ∙ there) in
      (e', rw other at, named, p)
]

after_schedule-IsNew :
    (now : ℕ) (c : Cron) (sched : ℕ → Option ℕ) (cmd : ℕ)
    → IsScheduler c
    → All (IsNew c sched cmd) (after_schedule now c sched cmd).entries
unfolding handle
after_schedule-IsNew now c sched cmd h =
    let old : All (IsNew c sched cmd) c.entries =
      All-mono (IsGiven c.next_id) (IsNew c sched cmd) c.entries
        (λ e given named. absurd (omega (arith, given.1, named))) h.given in
    elim (Bool-cases c.running) [
      | inl runs ↦ rw runs (
          All-sort less (IsNew c sched cmd) _
            (All-append (IsNew c sched cmd) c.entries _ old ((λ named. (refl, refl)), tt)))
      | inr idle ↦
          rw idle (All-append (IsNew c sched cmd) c.entries _ old ((λ named. (refl, refl)), tt))
    ]

-- The entry that `schedule` makes is new, and has the schedule and the job.
pub after_schedule-entry :
    (now : ℕ) (c : Cron) (sched : ℕ → Option ℕ) (cmd : ℕ)
    → IsScheduler c
    → (e : Entry) × (entry_of c (c.next_id + 1) ≡ none)
      × (entry_of (after_schedule now c sched cmd) (c.next_id + 1) ≡ some e)
      × (e.schedule ≡ sched)
      × (e.job ≡ cmd)
unfolding entry_of entries_of
after_schedule-entry now c sched cmd h =
    let (fresh, kept) = after_schedule-IsScheduled now c sched cmd h in
    let (e, at, named, new) =
      found_entry (IsNew c sched cmd) (c.next_id + 1) (after_schedule now c sched cmd).entries
        (after_schedule-IsNew now c sched cmd h)
        (kept (c.next_id + 1)
          ∙ ap (λ b. if b then true else is_some (entry_of c (c.next_id + 1)))
              ((==_iff (c.next_id + 1) (c.next_id + 1)).1 refl)) in
    let (schedule, job) = new named in
    (
      e,
      elim (Option-cases (entry_of c (c.next_id + 1))) [
        | inl absent ↦ absent
        | inr (_, found) ↦ absurd cc
      ],
      at,
      schedule,
      job,
    )

-- On a scheduler with the invariant of the reachable ones, running or not, `schedule` returns
-- with an identifier that no entry has; afterwards it is found, and every other one is found just
-- when it was before.
pub schedule-IsScheduled :
    (now : ℕ) (c : Cron) (sched : ℕ → Option ℕ) (cmd : ℕ)
    → IsScheduler c
    → Returns (IsScheduled c) (schedule now c sched cmd)
schedule-IsScheduled now c sched cmd h =
    rw (schedule_lem now c sched cmd) (after_schedule-IsScheduled now c sched cmd h)

-- No call makes the channel that `reset_entries` sends on.
Step-reset_made : (c c' : Cron) → Step c c' → c.reset_made ≡ false → c'.reset_made ≡ false
unfolding handle remove reset_entries start stop
Step-reset_made c c' (scheduled now sched cmd id e) h =
    let it =
      ok_scheduler (c.next_id + 1) id (after_schedule now c sched cmd) c' (schedule now c sched cmd)
        (schedule_lem now c sched cmd) e in
    rw it (ground (arith, h))
Step-reset_made c c' (dropped id e) h = rw e (ground (arith, h))
Step-reset_made c c' (ticked now runs e) h = rw e h
Step-reset_made c c' (emptied e) h = ground (arith, h, e)
Step-reset_made c c' (begun now e) h = rw e (ground (arith, h))
Step-reset_made c c' (halted e) h = rw e (ground (arith, h))

Reach-reset_made : (wrappers : List JobWrapper) {c : Cron} → Reach wrappers c → c.reset_made ≡ false
unfolding new
Reach-reset_made wrappers made = refl
Reach-reset_made wrappers (followed {c = c} {c' = c'} r s) =
    Step-reset_made c c' s (Reach-reset_made wrappers r)

-- On every scheduler that a new one becomes, `reset_entries` never returns while it runs, and
-- empties the entries while it does not.
pub reset_entries-cases :
    (wrappers : List JobWrapper) {c : Cron}
    → Reach wrappers c
    → reset_entries c ≡ (if c.running then err blocked else ok (record c { entries = [] }))
unfolding reset_entries
reset_entries-cases wrappers {c = c} r = rw (Reach-reset_made wrappers r) refl
