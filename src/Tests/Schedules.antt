-- ===== src/Tests/Schedules.antt =====
-- The theorems on the scheduler at schedulers of one and two entries.
use go_dispatch.Base.Sorting.{sort}
use go_dispatch.Cron.Entries.{run_due, schedule_all}
use go_dispatch.Cron.Calls.{reset_entries-cases}
use go_dispatch.Dcron.{JobWarpper, add_named_job, remove_named_job, Dcron}
use go_dispatch.Base.Maps.{lookup}
use go_dispatch.Base.Outcome.{ok, Outcome, err, Returns}
use go_dispatch.Dcron.Linked.{
  add_named_job-IsAnswer, IsLinked, remove_named_job-IsLinked, IsAnswer, IsWithout,
}
use go_dispatch.Cron.{blocked, entries_of, entry_of, reset_entries}
use go_dispatch.Base.Keys.{text_beq_iff, codes, Text, text_eq}
use go_dispatch.Tests.{host_a, host_b}
use go_dispatch.Cron.{tick, handle, schedule, Cron, new}
use go_dispatch.Cron.Ticks.{run_due-fire_due, due_jobs, fire_due}
use go_dispatch.Cron.{start}
use go_dispatch.Cron.Entries.{find_entry, run_due, Entry, less}
use go_dispatch.Cron.Reach.{followed, after_schedule, made, Reach-IsScheduler, Reach}
use go_dispatch.Cron.Invariant.{ticked, scheduled, begun, IsScheduler}
use go_dispatch.Cron.Chain.{chain_then}
use go_dispatch.Base.Shared.{
  is_some, ℕ, ◌+◌, ◌≡◌, refl, sym, ◌∙◌, true, Option, none, some, [], ◌∷◌, arith,
}

-- An entry that is due at `t`, and every 10 from then on.
abbrev entry_at : ℕ → ℕ → Entry
entry_at id t = record {
  id = id;
  schedule = λ now. some (now + 10);
  next = some t;
  prev = none;
  wrapped_job = id;
  job = id;
}

run_due-fire_due_example :
    run_due 6 (entry_at 1 5 ∷ entry_at 2 9 ∷ [])
    ≡ (fire_due 6 (entry_at 1 5 ∷ entry_at 2 9 ∷ []), due_jobs 6 (entry_at 1 5 ∷ entry_at 2 9 ∷ []))
unfolding less
run_due-fire_due_example =
    run_due-fire_due 6 (entry_at 1 5 ∷ entry_at 2 9 ∷ []) ((refl, tt), (tt, tt))

-- A scheduler with one job that was started at the time 0 and got a tick at 10.
abbrev every_ten : ℕ → Option ℕ
every_ten now = some (now + 10)

abbrev with_job : Cron
with_job = after_schedule 0 (new []) every_ten 8

abbrev ticked_once : Cron
ticked_once = handle (start 0 with_job) (tick 10)

ticked_once-Reach : Reach [] ticked_once
unfolding new schedule chain_then start
ticked_once-Reach =
    followed (followed (followed made (scheduled 0 every_ten 8 1 refl)) (begun 0 refl))
      (ticked 10 refl refl)

Reach-IsScheduler_example : IsScheduler ticked_once
Reach-IsScheduler_example = Reach-IsScheduler [] ticked_once-Reach

ticked_once-IsScheduler : IsScheduler ticked_once
ticked_once-IsScheduler = Reach-IsScheduler [] ticked_once-Reach

reset_entries-cases_example : reset_entries ticked_once ≡ err blocked
unfolding new start handle
reset_entries-cases_example = reset_entries-cases [] ticked_once-Reach

-- A table with one job, whose entry is the scheduler's.
abbrev one_job : Dcron
one_job = record {
  jobs = (host_a, record { id = 1; name = host_a; cron_str = []; job = 8 }) ∷ [];
  cr = ticked_once;
}

one_job-IsLinked : IsLinked one_job
unfolding lookup entry_of entries_of find_entry handle start new sort run_due schedule_all
one_job-IsLinked = record {
  scheduler = ticked_once-IsScheduler;
  backed = λ n j e. ground (arith, e, a_is_there);
  own = λ m n j k e e' same. sym (only_a m j e) ∙ only_a n k e';
}
  where
    a_is_there : is_some (entry_of ticked_once 1) ≡ true
    a_is_there = refl

    only_a : (n : Text) (j : JobWarpper) → lookup n one_job.jobs ≡ some j → host_a ≡ n
    only_a n j e = ground (arith, text_beq_iff host_a n, e)

remove_named_job-IsLinked_example : IsWithout one_job host_a (remove_named_job one_job host_a)
remove_named_job-IsLinked_example = remove_named_job-IsLinked one_job host_a one_job-IsLinked

-- A parser that takes every spec.
abbrev take_all_specs : Text → Outcome ℕ (ℕ → Option ℕ)
take_all_specs spec = ok every_ten

add_named_job-IsAnswer_example :
    Returns
      (IsAnswer ℕ take_all_specs one_job host_b (codes "x") 5)
      (add_named_job ℕ take_all_specs 12 one_job host_b (codes "x") 5)
add_named_job-IsAnswer_example =
    add_named_job-IsAnswer ℕ take_all_specs 12 one_job host_b (codes "x") 5 tt one_job-IsLinked
