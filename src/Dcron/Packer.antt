-- ===== src/Dcron/Packer.antt =====
-- dcron/recentjobpacker.go: the jobs that were missed lately, kept on a heap by their time. The
-- heap operations of container/heap are a parameter.
pub mod Laws
pub mod Refines
pub mod Fills
use go_dispatch.Base.Outcome.{◌>>=◌, panic, out_of_fuel, ok, Outcome}
use go_dispatch.Base.Keys.{Text}
use go_dispatch.Base.Shared.{
  ltb, leb, ◌==◌, if◌then◌else◌, ==_iff, Bool-cases, Option-cases, is_some, length, get_elem?, set,
  take, drop, remove_nth, All, length-append, All-append, get_elem?-lt, length-remove_nth,
  All-remove_nth, ◌!◌, get_elem?-!, count, count-append, count-remove_nth, count_index, count-pos,
  count-zero, count_by, count_by-append, count_by-set, count_by-find, ℕ, zero, suc, ◌+◌, ◌-◌, ◌*◌,
  ◌/◌, ◌%◌, ◌^◌, ◌≤◌, ◌<◌, ◌≡◌, refl, sym, ap, ◌∙◌, ◌≢◌, ◌↔◌, ◌⊎◌, inl, inr, Bool, true, false, not,
  ◌&&◌, ◌||◌, Option, none, some, List, [], ◌∷◌, ◌++◌, map, arith,
}

pub record JobWithTime : Type 0 where
  pub job_name : Text
  pub running_time : ℕ

-- `Less`
unfoldable pub job_less : JobWithTime → JobWithTime → Bool
job_less x y = ltb x.running_time y.running_time

-- heap.Init, heap.Push and heap.Pop on a JobWithTimeHeap; heap.Pop panics on an empty one.
pub record Heap : Type 0 where
  pub init : List JobWithTime → List JobWithTime
  pub push : JobWithTime → List JobWithTime → List JobWithTime
  pub pop : List JobWithTime → Option (JobWithTime × List JobWithTime)

pub record RecentJobPacker : Type 0 where
  pub time_window : ℕ
  pub recent_jobs : List JobWithTime

-- `NewRecentJobPacker`
abbrev pub new_recent_job_packer : ℕ → RecentJobPacker
new_recent_job_packer time_window = record { time_window = time_window; recent_jobs = [] }

-- `RunningTime.Before(unRencentTime)`, where that time is `now` less the window.
unfoldable pub is_outdated : ℕ → ℕ → JobWithTime → Bool
is_outdated time_window now job = ltb (job.running_time + time_window) now

-- How a call of a packer ends; it returns no error.
abbrev pub Run : Type 0 → Type 0
Run A = Outcome {0, 0} Unit A

-- The calls of a packer.
pub data Call : Type 0 where
  add_call : Text → ℕ → ℕ → Call
  pop_call : Call

module _ (h : Heap) where
  -- The loop of AddJob.
  unfoldable pub prune : ℕ → ℕ → ℕ → List JobWithTime → Run (List JobWithTime)
  prune zero time_window now jobs = out_of_fuel
  prune (suc fuel) time_window now [] = ok []
  prune (suc fuel) time_window now (job ∷ jobs) =
      let rest : Run (List JobWithTime) = elim (h.pop (job ∷ jobs)) [
        | none ↦ panic
        | some (_, left) ↦ prune fuel time_window now left
      ] in
      if is_outdated time_window now job then rest else ok (job ∷ jobs)

  -- `AddJob`; `now` is the time when the outdated jobs are looked for.
  unfoldable pub pack_job : Text → ℕ → ℕ → RecentJobPacker → Run RecentJobPacker
  unfolding prune
  pack_job name t now p =
      let jobs = h.push (record { job_name = name; running_time = t }) p.recent_jobs in
      do
        kept ← prune (suc (length jobs)) p.time_window now jobs
        ok (record p { recent_jobs = kept })

  -- The loop of PopAllJobs.
  unfoldable pub pop_names : ℕ → List JobWithTime → Run (List Text)
  pop_names zero jobs = out_of_fuel
  pop_names (suc fuel) [] = ok []
  pop_names (suc fuel) (job ∷ jobs) = elim (h.pop (job ∷ jobs)) [
    | none ↦ panic
    | some (first, left) ↦ pop_names fuel left >>= λ names. ok (first.job_name ∷ names)
  ]

  -- `PopAllJobs`
  unfoldable pub unpack_jobs : RecentJobPacker → Run (List Text × RecentJobPacker)
  unfolding pop_names
  unpack_jobs p = do
    names ← pop_names (suc (length p.recent_jobs)) p.recent_jobs
    ok (names, record p { recent_jobs = h.init [] })

  -- The calls one after the other, with the names that each PopAllJobs gave.
  unfoldable pub packs : List Call → RecentJobPacker → Run (List (List Text) × RecentJobPacker)
  unfolding pack_job unpack_jobs
  packs [] p = ok ([], p)
  packs (add_call name t now ∷ calls) p = pack_job name t now p >>= λ p'. packs calls p'
  packs (pop_call ∷ calls) p = do
    (names, p') ← unpack_jobs p
    (answers, p'') ← packs calls p'
    ok (names ∷ answers, p'')
