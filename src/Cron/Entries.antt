-- ===== src/Cron/Entries.antt =====
-- cron/cron.go: the entries of the scheduler, their order in time, and the round of a tick.
use go_dispatch.Base.Shared.{
  ltb, leb, ◌==◌, if◌then◌else◌, ℕ, Bool, true, false, not, Option, none, some, List, [], ◌∷◌,
}

abbrev pub EntryId : Type 0
EntryId = ℕ

-- `schedule t` is the activation after `t`, or `none` where there is none. `prev` and `next` are
-- `none` for the zero time.
pub record Entry : Type 0 where
  pub id : EntryId
  pub schedule : ℕ → Option ℕ
  pub next : Option ℕ
  pub prev : Option ℕ
  pub wrapped_job : ℕ
  pub job : ℕ

unfoldable pub valid : Entry → Bool
valid e = not (e.id == 0)

-- `byTime.Less`: the zero time comes last.
abbrev pub time_less : Option ℕ → Option ℕ → Bool
time_less none u = false
time_less (some t) none = true
time_less (some t) (some u) = ltb t u

unfoldable pub less : Entry → Entry → Bool
less d e = time_less d.next e.next

unfoldable pub remove_entry : EntryId → List Entry → List Entry
remove_entry id [] = []
remove_entry id (e ∷ es) = if e.id == id then remove_entry id es else e ∷ remove_entry id es

-- An entry after its job was started at the time `now`.
abbrev pub fired : ℕ → Entry → Entry
fired now e = record e { prev = e.next; next = e.schedule now }

abbrev pub is_due : ℕ → Option ℕ → Bool
is_due now none = false
is_due now (some t) = leb t now

-- The loop of a tick over the sorted entries: it starts the jobs that are due and breaks off at the
-- first entry that is not. The answer is the entries and the jobs started.
unfoldable pub run_due : ℕ → List Entry → List Entry × List ℕ
run_due now [] = ([], [])
run_due now (e ∷ es) =
    let (rest, jobs) = run_due now es in
    if is_due now e.next then (fired now e ∷ rest, e.wrapped_job ∷ jobs) else (e ∷ es, [])

-- The first activation of every entry, when the loop starts.
unfoldable pub schedule_all : ℕ → List Entry → List Entry
schedule_all now [] = []
schedule_all now (e ∷ es) = record e { next = e.schedule now } ∷ schedule_all now es

unfoldable pub find_entry : EntryId → List Entry → Option Entry
find_entry id [] = none
find_entry id (e ∷ es) = if id == e.id then some e else find_entry id es
