-- ===== src/Dcron/Packer/Fills.antt =====
-- The packer as an IRecentJobPacker of the scheduler.
use go_dispatch.Dcron.Packer.Refines.{unpack_jobs-Unpacked, Unpacked, pack_job-Packed, Packed}
use go_dispatch.Dcron.Packer.Laws.{recent_of, HeapLaws}
use mathlib.Core.Path.{subst}
use go_dispatch.NodePool.Diff.{occurs}
use go_dispatch.Base.Outcome.{Returns-inv}
use go_dispatch.Dcron.Rerun.{Keeps}
use go_dispatch.Dcron.Node.{RecentJobs}
use go_dispatch.Dcron.Packer.{is_outdated, RecentJobPacker, JobWithTime, Heap}
use go_dispatch.Base.Keys.{text_beq_refl, text_beq, Text, text_eq}
use go_dispatch.Base.Shared.{
  count_by, ℕ, ◌+◌, ◌≤◌, ◌<◌, ◌≡◌, refl, sym, false, List, [], ◌∷◌, map, arith,
}

module _ (h : Heap) (laws : HeapLaws h) (window : ℕ) where
  -- A packer on a heap in order. Its calls return, so that their values are taken.
  abbrev pub packer_jobs : RecentJobs
  packer_jobs = record {
    State = (p : RecentJobPacker) × laws.IsHeap p.recent_jobs;
    add_job = λ name t now (p, heap).
        let (p', _, ((heap', _), _)) =
          Returns-inv
            (Packed h laws p.time_window now
              (record { job_name = name; running_time = t } ∷ p.recent_jobs))
            _ (pack_job-Packed h laws name t now p heap) in
        (p', heap');
    pop_all_jobs = λ (p, heap).
        let ((names, p'), _, (_, heap', _, _)) =
          Returns-inv (Unpacked h laws p.time_window p.recent_jobs) _
            (unpack_jobs-Unpacked h laws p heap) in
        (names, (p', heap'));
  }

  named :
      (name : Text) (js : List JobWithTime)
      → occurs name (map (λ j. j.job_name) js) ≡ count_by (λ j. text_beq j.job_name name) js
  named name [] = refl
  named name (j ∷ js) = ground (arith, named name js)

  not_outdated :
      (window t now : ℕ) (name : Text)
      → now ≤ t + window
      → is_outdated window now (record { job_name = name; running_time = t }) ≡ false
  unfolding is_outdated
  not_outdated window t now name soon = ground arith

  -- A job that was added within the window is among the recent ones.
  fresh :
      (window t now : ℕ) (name : Text) (jobs : List JobWithTime)
      → now ≤ t + window
      → let job : JobWithTime = record { job_name = name; running_time = t } in
        0 < count_by (λ j. text_beq j.job_name name) (recent_of window now (job ∷ jobs))
  fresh window t now name jobs soon =
      rw (not_outdated window t now name soon) (rw (text_beq_refl name) (omega arith))

  pub packer_jobs-Keeps : Keeps packer_jobs (λ (p, _). p.time_window)
  packer_jobs-Keeps name t now (p, heap) soon =
      let job : JobWithTime = record { job_name = name; running_time = t } in
      let (p', e, ((heap', same), _)) =
        Returns-inv (Packed h laws p.time_window now (job ∷ p.recent_jobs)) _
          (pack_job-Packed h laws name t now p heap) in
      let ((names, p''), e', ((popped, sorted, same', is), heap'', _, _)) =
        Returns-inv (Unpacked h laws p'.time_window p'.recent_jobs) _
          (unpack_jobs-Unpacked h laws p' heap') in
      subst (λ ns. 0 < occurs name ns) (sym is)
        (ground (
          arith,
          named name popped,
          same' (λ j. text_beq j.job_name name),
          same (λ j. text_beq j.job_name name),
          fresh p.time_window t now name p.recent_jobs soon,
        ))
