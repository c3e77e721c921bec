-- ===== src/Cron/Ticks.antt =====
-- A tick: on entries in the order of time it starts just the jobs that are due.
use go_dispatch.Base.Sorting.{IsSortedBy, IsOrder}
use go_dispatch.Cron.Entries.{Entry, less, run_due, fired, is_due}
use go_dispatch.Base.Shared.{
  if◌then◌else◌, Bool-cases, All, ℕ, ◌≡◌, refl, inl, inr, false, List, [], ◌∷◌, arith,
}

pub less_order : IsOrder less
unfolding less
less_order = record { asym = λ d e h. ground arith; trans = λ d e f h k. ground arith }

-- Every due entry as it is once its job has started, and every other entry as it was.
abbrev pub fire_due : ℕ → List Entry → List Entry
fire_due now [] = []
fire_due now (e ∷ es) = (if is_due now e.next then fired now e else e) ∷ fire_due now es

-- The jobs of the due entries, in order.
abbrev pub due_jobs : ℕ → List Entry → List ℕ
due_jobs now [] = []
due_jobs now (e ∷ es) =
    let rest = due_jobs now es in if is_due now e.next then e.wrapped_job ∷ rest else rest

-- Behind an entry that is not due none is due.
none_due :
    (now : ℕ) (e : Entry) (es : List Entry)
    → is_due now e.next ≡ false
    → All (λ d. less d e ≡ false) es
    → (fire_due now es ≡ es) × (due_jobs now es ≡ [])
unfolding less
none_due now e [] h a = (refl, refl)
none_due now e (d ∷ ds) h a =
    let later : is_due now d.next ≡ false = ground (arith, a.0) in
    let (same, nothing) = none_due now e ds h a.1 in (rw (later, same), rw (later, nothing))

-- On entries in the order of their next activation, the loop of a tick, which breaks off at the
-- first entry that is not due, does the same as one that looks at all of them: it starts the job
-- of each due entry, in order, and moves these entries on to their next activation.
pub run_due-fire_due :
    (now : ℕ) (es : List Entry)
    → IsSortedBy less es
    → run_due now es ≡ (fire_due now es, due_jobs now es)
unfolding run_due
run_due-fire_due now [] s = refl
run_due-fire_due now (e ∷ es) s = elim (Bool-cases (is_due now e.next)) [
  | inl due ↦ rw (due, run_due-fire_due now es s.1)
  | inr later ↦ let (same, nothing) = none_due now e es later s.0 in rw (later, same, nothing)
]
