-- ===== src/Cron/Invariant.antt =====
-- What holds of a scheduler whatever calls and ticks it sees.
use go_dispatch.Base.Outcome.{ok}
use go_dispatch.Base.Sorting.{sort, IsSortedBy, sort-IsSortedBy, All-sort, count-map-sort}
use go_dispatch.Cron.{Cron, handle, tick, schedule, remove, reset_entries, start, stop}
use go_dispatch.Cron.Entries.{Entry, EntryId, less, is_due, remove_entry, schedule_all}
use go_dispatch.Cron.Ticks.{less_order, fire_due}
use go_dispatch.Base.Shared.{
  ◌==◌, if◌then◌else◌, Bool-cases, All, All-append, count, count-append, ℕ, ◌+◌, ◌≤◌, ◌<◌, ◌≡◌,
  refl, ap, inl, inr, true, Option, List, [], ◌∷◌, ◌++◌, map, arith,
}

abbrev pub ids : List Entry → List ℕ
ids es = map (λ (e : Entry). e.id) es

-- An identifier that was given out: at least 1 and at most the last one.
abbrev pub IsGiven : EntryId → Entry → Type 0
IsGiven last e = (0 < e.id) × (e.id ≤ last)

pub record IsScheduler (c : Cron) : Type 0 where
  pub given : All (IsGiven c.next_id) c.entries
  pub distinct : (id : EntryId) → count id (ids c.entries) ≤ 1
  pub ordered : c.running ≡ true → IsSortedBy less c.entries

All-mono {ℓ} :
    {A : Type ℓ} (P Q : A → Type 0) (xs : List A) → ((a : A) → P a → Q a) → All P xs → All Q xs
All-mono P Q [] f h = h
All-mono P Q (x ∷ xs) f h = (f x h.0, All-mono P Q xs f h.1)

-- Sorting the entries keeps all of it, and gives the order.
pub sorted-IsScheduler :
    (c : Cron) (es : List Entry)
    → All (IsGiven c.next_id) es
    → ((id : EntryId) → count id (ids es) ≤ 1)
    → IsScheduler (record c { entries = sort less es })
sorted-IsScheduler c es g d = record {
  given = All-sort less (IsGiven c.next_id) es g;
  distinct = λ id. rw (count-map-sort less (λ (e : Entry). e.id) id es) (d id);
  ordered = λ _. sort-IsSortedBy less less_order es;
}

pub fire_due-IsGiven :
    (now last : ℕ) (es : List Entry) → All (IsGiven last) es → All (IsGiven last) (fire_due now es)
fire_due-IsGiven now last [] h = h
fire_due-IsGiven now last (e ∷ es) h = elim (Bool-cases (is_due now e.next)) [
  | inl due ↦ rw due (h.0, fire_due-IsGiven now last es h.1)
  | inr later ↦ rw later (h.0, fire_due-IsGiven now last es h.1)
]

pub ids-fire_due : (now : ℕ) (es : List Entry) → ids (fire_due now es) ≡ ids es
ids-fire_due now [] = refl
ids-fire_due now (e ∷ es) = elim (Bool-cases (is_due now e.next)) [
  | inl due ↦ rw due (ap (◌∷◌ e.id) (ids-fire_due now es))
  | inr later ↦ rw later (ap (◌∷◌ e.id) (ids-fire_due now es))
]

pub remove_entry-IsGiven :
    (id last : EntryId) (es : List Entry)
    → All (IsGiven last) es
    → All (IsGiven last) (remove_entry id es)
unfolding remove_entry
remove_entry-IsGiven id last [] h = h
remove_entry-IsGiven id last (e ∷ es) h = elim (Bool-cases (e.id == id)) [
  | inl same ↦ rw same (remove_entry-IsGiven id last es h.1)
  | inr other ↦ rw other (h.0, remove_entry-IsGiven id last es h.1)
]

-- `remove_entry` takes out all entries of the identifier and no other.
pub count-remove_entry :
    (j id : EntryId) (es : List Entry)
    → count j (ids (remove_entry id es)) ≡ (if id == j then 0 else count j (ids es))
unfolding remove_entry
count-remove_entry j id [] = ground arith
count-remove_entry j id (e ∷ es) = ground (arith, count-remove_entry j id es)

pub schedule_all-IsGiven :
    (now last : ℕ) (es : List Entry)
    → All (IsGiven last) es
    → All (IsGiven last) (schedule_all now es)
unfolding schedule_all
schedule_all-IsGiven now last [] h = h
schedule_all-IsGiven now last (e ∷ es) h = (h.0, schedule_all-IsGiven now last es h.1)

pub ids-schedule_all : (now : ℕ) (es : List Entry) → ids (schedule_all now es) ≡ ids es
unfolding schedule_all
ids-schedule_all now [] = refl
ids-schedule_all now (e ∷ es) = ap (◌∷◌ e.id) (ids-schedule_all now es)

-- An identifier that was not given out yet is not among the entries.
pub fresh_absent :
    (last id : EntryId) (es : List Entry)
    → All (IsGiven last) es
    → last < id
    → count id (ids es) ≡ 0
fresh_absent last id [] h lt = refl
fresh_absent last id (e ∷ es) h lt = ground (arith, fresh_absent last id es h.1 lt)

pub ids-append : (es ds : List Entry) → ids (es ++ ds) ≡ ids es ++ ids ds
ids-append [] ds = refl
ids-append (e ∷ es) ds = ap (◌∷◌ e.id) (ids-append es ds)

-- The entries with a new one behind them.
module _ (c : Cron) (e : Entry) (h : IsScheduler c) (new : e.id ≡ c.next_id + 1) where
  pub appended-IsGiven : All (IsGiven (c.next_id + 1)) (c.entries ++ e ∷ [])
  appended-IsGiven =
      All-append (IsGiven (c.next_id + 1)) c.entries (e ∷ [])
        (All-mono (IsGiven c.next_id) (IsGiven (c.next_id + 1)) c.entries (λ d g. omega arith)
          h.given)
        ((omega arith, omega arith), tt)

  pub appended-distinct : (id : EntryId) → count id (ids (c.entries ++ e ∷ [])) ≤ 1
  appended-distinct id =
      rw (ids-append c.entries (e ∷ []), count-append id (ids c.entries) (e.id ∷ []))
        (ground (arith, h.distinct id, fresh_absent c.next_id id c.entries h.given))

-- The calls of the scheduler's clients that return, and the ticks of its timer.
pub data Step (c c' : Cron) : Type 0 where
  scheduled :
      (now : ℕ) (sched : ℕ → Option ℕ) (cmd : ℕ) (id : EntryId)
      → schedule now c sched cmd ≡ ok (id, c')
      → Step c c'
  dropped : (id : EntryId) → c' ≡ remove c id → Step c c'
  ticked : (now : ℕ) → c.running ≡ true → c' ≡ handle c (tick now) → Step c c'
  emptied : reset_entries c ≡ ok c' → Step c c'
  begun : (now : ℕ) → c' ≡ start now c → Step c c'
  halted : c' ≡ stop c → Step c c'
