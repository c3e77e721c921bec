-- ===== src/Dcron/Packer/Refines.antt =====
-- The packer keeps just the jobs that its history asks for, whatever the heap does with their order.
use go_dispatch.Dcron.Packer.Laws.{
  none_outdated, All-count, recent_of-new, recent_of-old, count-All, recent_of, SameJobs-length,
  SameJobs-recent_of, SameJobs, HeapLaws,
}
use mathlib.Core.Path.{subst}
use go_dispatch.Base.Sorting.{IsSortedBy}
use go_dispatch.Base.Keys.{Text}
use go_dispatch.Dcron.Packer.{
  RecentJobPacker, unpack_jobs, pack_job, new_recent_job_packer, packs, pop_call, pop_names,
  add_call, prune, job_less, is_outdated, JobWithTime, Heap, Call,
}
use go_dispatch.Base.Outcome.{Returns-inv, Returns}
use go_dispatch.Base.Shared.{
  Bool-cases, length, count_by, ℕ, zero, suc, ◌<◌, ◌≡◌, refl, sym, ap, ◌∙◌, inl, inr, List, [], ◌∷◌,
  map, arith,
}

-- What the history of the calls asks for: the answers of PopAllJobs and the jobs left in the end.
-- A call of AddJob leaves the jobs that are not outdated, one of PopAllJobs none; it answers with
-- the names in the order of the times, jobs of the same time in any order.
abbrev pub History : ℕ → List Call → List JobWithTime → List (List Text) → List JobWithTime → Type 0
History window [] jobs [] final = SameJobs final jobs
History window [] jobs (_ ∷ _) final = ⊥
History window (add_call name t now ∷ calls) jobs answers final =
    let job : JobWithTime = record { job_name = name; running_time = t } in
    History window calls (recent_of window now (job ∷ jobs)) answers final
History window (pop_call ∷ calls) jobs [] final = ⊥
History window (pop_call ∷ calls) jobs (names ∷ answers) final =
    ((popped : List JobWithTime) × IsSortedBy job_less popped
      × SameJobs popped jobs
      × (names ≡ map (λ j. j.job_name) popped))
    × History window calls [] answers final

module _ (h : Heap) (laws : HeapLaws h) where
  abbrev pub Kept : ℕ → ℕ → List JobWithTime → List JobWithTime → Type 0
  Kept window now jobs kept = laws.IsHeap kept × SameJobs kept (recent_of window now jobs)

  prune-Kept :
      (fuel window now : ℕ) (jobs : List JobWithTime)
      → laws.IsHeap jobs
      → length jobs < fuel
      → Returns (Kept window now jobs) (prune h fuel window now jobs)
  unfolding prune
  prune-Kept zero window now jobs heap enough = absurd (omega arith)
  prune-Kept (suc fuel) window now [] heap enough = (heap, λ p. refl)
  prune-Kept (suc fuel) window now (x ∷ xs) heap enough =
      let (left, e, heap', same) = laws.pop-IsHeap x xs heap in
      elim (Bool-cases (is_outdated window now x)) [
        | inl old ↦
            let (kept, e', (heap'', same')) = Returns-inv (Kept window now left) _ (
              prune-Kept fuel window now left heap'
                (omega (arith, SameJobs-length left xs same))) in
            rw (old, e, e')
              (
                heap'',
                λ p.
                    same' p
                    ∙ SameJobs-recent_of window now left xs same p
                    ∙ sym (ap (count_by p) (recent_of-old window now x xs old)),
              )
        | inr new ↦ rw new (
          heap,
          λ p. ap (count_by p) (
              sym (
                recent_of-new window now x xs new
                ∙ ap (λ ys. x ∷ ys) (none_outdated window now x xs new (laws.least x xs heap)))),
        )
      ]

  -- The jobs that were taken out, in an order that is one of their times.
  abbrev pub Popped : List JobWithTime → List Text → Type 0
  Popped jobs names =
      (popped : List JobWithTime) × IsSortedBy job_less popped
      × SameJobs popped jobs
      × (names ≡ map (λ j. j.job_name) popped)

  pop_names-Popped :
      (fuel : ℕ) (jobs : List JobWithTime)
      → laws.IsHeap jobs
      → length jobs < fuel
      → Returns (Popped jobs) (pop_names h fuel jobs)
  unfolding pop_names
  pop_names-Popped zero jobs heap enough = absurd (omega arith)
  pop_names-Popped (suc fuel) [] heap enough = ([], tt, (λ p. refl), refl)
  pop_names-Popped (suc fuel) (x ∷ xs) heap enough =
      let (left, e, heap', same) = laws.pop-IsHeap x xs heap in
      let (names, e', (popped, sorted, same', named)) =
        Returns-inv (Popped left) _
          (pop_names-Popped fuel left heap' (omega (arith, SameJobs-length left xs same))) in
      let none_less = count-All (λ y. job_less y x) xs (laws.least x xs heap) in
      rw (pop_names, e, e')
        (
          x ∷ popped,
          (All-count (λ y. job_less y x) popped (same' _ ∙ same _ ∙ none_less), sorted),
          (λ p. ground (arith, same' p, same p)),
          ap (λ ns. x.job_name ∷ ns) named,
        )

  -- The packer keeps of the jobs `jobs` those that are not outdated.
  abbrev pub Packed : ℕ → ℕ → List JobWithTime → RecentJobPacker → Type 0
  Packed window now jobs p = Kept window now jobs p.recent_jobs × (p.time_window ≡ window)

  pub pack_job-Packed :
      (name : Text) (t now : ℕ) (p : RecentJobPacker)
      → laws.IsHeap p.recent_jobs
      → Returns
          (Packed p.time_window now (record { job_name = name; running_time = t } ∷ p.recent_jobs))
          (pack_job h name t now p)
  unfolding pack_job
  pack_job-Packed name t now p heap =
      let job : JobWithTime = record { job_name = name; running_time = t } in
      let (heap', pushed) = laws.push-IsHeap job p.recent_jobs heap in
      let all = h.push job p.recent_jobs in
      let (kept, e, (heap'', same)) =
        Returns-inv (Kept p.time_window now all) _
          (prune-Kept (suc (length all)) p.time_window now all heap' (omega arith)) in
      rw e (
        (
          heap'',
          λ q. same q ∙ SameJobs-recent_of p.time_window now all (job ∷ p.recent_jobs) pushed q,
        ),
        refl,
      )

  -- The names of the jobs `jobs` were given, and the packer is empty.
  abbrev pub Unpacked : ℕ → List JobWithTime → List Text × RecentJobPacker → Type 0
  Unpacked window jobs (names, p) =
      Popped jobs names
      × laws.IsHeap p.recent_jobs
      × (p.recent_jobs ≡ [])
      × (p.time_window ≡ window)

  pub unpack_jobs-Unpacked :
      (p : RecentJobPacker)
      → laws.IsHeap p.recent_jobs
      → Returns (Unpacked p.time_window p.recent_jobs) (unpack_jobs h p)
  unfolding unpack_jobs
  unpack_jobs-Unpacked p heap =
      let (names, e, popped) =
        Returns-inv (Popped p.recent_jobs) _
          (pop_names-Popped (suc (length p.recent_jobs)) p.recent_jobs heap (omega arith)) in
      let (nil, nil-IsHeap) = laws.init-nil in rw e (popped, rw nil nil-IsHeap, nil, refl)

  abbrev Answered : ℕ → List Call → List JobWithTime → List (List Text) × RecentJobPacker → Type 0
  Answered window calls jobs (answers, p') = History window calls jobs answers p'.recent_jobs

  packs-History :
      (calls : List Call) (p : RecentJobPacker) (jobs : List JobWithTime)
      → laws.IsHeap p.recent_jobs
      → SameJobs p.recent_jobs jobs
      → Returns (Answered p.time_window calls jobs) (packs h calls p)
  unfolding packs
  packs-History [] p jobs heap same = same
  packs-History (add_call name t now ∷ calls) p jobs heap same =
      let job : JobWithTime = record { job_name = name; running_time = t } in
      let (p', e, ((heap', same'), window)) =
        Returns-inv (Packed p.time_window now (job ∷ p.recent_jobs)) _
          (pack_job-Packed name t now p heap) in
      let left = recent_of p.time_window now (job ∷ jobs) in
      rw e (
        subst (λ w. Returns (Answered w calls left) (packs h calls p')) window
          (packs-History calls p' left heap' (λ q.
            same' q
            ∙ SameJobs-recent_of p.time_window now (job ∷ p.recent_jobs) (job ∷ jobs)
                (λ q'. ground (arith, same q')) q)))
  packs-History (pop_call ∷ calls) p jobs heap same =
      let ((names, p'), e, ((popped, sorted, same', named), heap', nil, window)) =
        Returns-inv (Unpacked p.time_window p.recent_jobs) _ (unpack_jobs-Unpacked p heap) in
      let ((answers, p''), e', rest) =
        Returns-inv (Answered p'.time_window calls []) _
          (packs-History calls p' [] heap' (λ q. ap (count_by q) nil)) in
      rw (e, e')
        (
          (popped, sorted, (λ q. same' q ∙ same q), named),
          subst (λ w. History w calls [] answers p''.recent_jobs) window rest,
        )

  -- Whatever calls a new packer gets, it ends each without a panic and answers as the list of the
  -- recent jobs does that stands for its history: a call of AddJob leaves those that are not
  -- older than the window, one of PopAllJobs gives the names of all of them, in the order of
  -- their times, and leaves none. The heap is one that keeps what container/heap documents.
  pub new_packer-History :
      (window : ℕ) (calls : List Call)
      → Returns
          (λ (answers, p'). History window calls [] answers p'.recent_jobs)
          (packs h calls (new_recent_job_packer window))
  new_packer-History window calls =
      packs-History calls (new_recent_job_packer window) [] laws.init-nil.1 (λ q. refl)
