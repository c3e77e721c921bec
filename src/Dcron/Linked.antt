-- ===== src/Dcron/Linked.antt =====
-- The jobs of the table and the entries of the scheduler correspond.
use go_dispatch.Cron.Entries.{Entry, EntryId}
use go_dispatch.Base.Outcome.{out_of_fuel, panic, err, ok, ◌>>=◌, Returns, Ensures, Outcome}
use go_dispatch.Cron.Calls.{after_schedule-entry, after_schedule-IsScheduled, remove-entry_of}
use go_dispatch.Cron.Reach.{
  schedule_lem, after_schedule-IsScheduler, after_schedule, remove-IsScheduler,
}
use go_dispatch.Cron.{add_job, entry_of}
use go_dispatch.Base.Maps.{lookup-insert, insert, lookup-erase, lookup}
use go_dispatch.Cron.Invariant.{IsScheduler}
use go_dispatch.Dcron.{
  entered, add_named_job, already_exists, bad_spec, AddError, JobWarpper, remove_named_job, Dcron,
}
use go_dispatch.Base.Keys.{text_beq_refl, text_beq_iff, text_beq, Text, text_eq}
use go_dispatch.Base.Shared.{
  ◌==◌, if◌then◌else◌, Bool-cases, Option-cases, is_some, ℕ, ◌+◌, ◌≡◌, refl, sym, ap, ◌∙◌, inl, inr,
  true, false, Option, none, some, arith,
}

-- Every job of the table has an entry of its own.
pub record IsLinked (d : Dcron) : Type 0 where
  pub scheduler : IsScheduler d.cr
  pub backed :
      (name : Text) (job : JobWarpper)
      → lookup name d.jobs ≡ some job
      → is_some (entry_of d.cr job.id) ≡ true
  pub own :
      (m n : Text) (j k : JobWarpper)
      → lookup m d.jobs ≡ some j
      → lookup n d.jobs ≡ some k
      → j.id ≡ k.id
      → m ≡ n

-- `Remove` keeps every other job linked. It takes the job off the table and its entry off the
-- scheduler, and no other job or entry.
abbrev pub IsWithout : Dcron → Text → Dcron → Type 0
IsWithout d name d' =
    (lookup name d'.jobs ≡ none)
    × ((n : Text) → lookup n d'.jobs ≡ (if text_beq name n then none else lookup n d.jobs))
    × ((job : JobWarpper)
        → lookup name d.jobs ≡ some job
        → (id : EntryId)
        → is_some (entry_of d'.cr id)
          ≡ (if job.id == id then false else is_some (entry_of d.cr id)))
    × IsLinked d'

-- Where each job of the table has an entry of its own in the scheduler, removing a job by its
-- name takes it off the table and its entry off the scheduler; every other job stays in the table
-- and no other entry leaves the scheduler. Each job that is left still has an entry of its own,
-- whether the scheduler runs or not.
pub remove_named_job-IsLinked :
    (d : Dcron) (name : Text) → IsLinked d → IsWithout d name (remove_named_job d name)
unfolding remove_named_job
remove_named_job-IsLinked d name h = elim (Option-cases (lookup name d.jobs)) [
  | inl absent ↦
      rw (remove_named_job, absent)
        (
          absent,
          λ n. elim (Bool-cases (text_beq name n)) [
            | inl same ↦ rw (same, ← (text_beq_iff name n).0 same) absent
            | inr other ↦ rw other refl
          ],
          λ job found. absurd cc,
          h,
        )
  | inr (job, found) ↦
      rw (remove_named_job, found)
        (
          ground (arith, lookup-erase name name d.jobs, text_beq_refl name),
          λ n. lookup-erase name n d.jobs,
          λ job' found' id. let same : job' ≡ job = cc in rw same (remove-entry_of d.cr job.id id),
          record {
            scheduler = remove-IsScheduler d.cr job.id h.scheduler;
            backed = λ n j e. ground (
              arith,
              lookup-erase name n d.jobs,
              remove-entry_of d.cr job.id j.id,
              h.backed n j,
              h.own name n job j found,
              text_beq_iff name n,
              e,
            );
            own = λ m n j k e e'.
                h.own m n j k (ground (arith, lookup-erase name m d.jobs, e))
                  (ground (arith, lookup-erase name n d.jobs, e'));
          },
        )
]

module _ (E : Type 0) (parse_spec : Text → Outcome E (ℕ → Option ℕ)) where
  -- The table and the scheduler after the job `name` was entered: it stands in the table with what
  -- it was given, and its entry in the scheduler has the schedule and the job.
  abbrev pub IsEntered : Dcron → Text → Text → ℕ → (ℕ → Option ℕ) → Dcron → Type 0
  IsEntered d name cron_str job sched d' =
      ((id : EntryId) × (e : Entry) × (lookup name d'.jobs
          ≡ some (record { id = id; name = name; cron_str = cron_str; job = job }))
        × (entry_of d.cr id ≡ none)
        × (entry_of d'.cr id ≡ some e)
        × (e.schedule ≡ sched)
        × (e.job ≡ job))
      × ((n : Text) → text_beq name n ≡ false → lookup n d'.jobs ≡ lookup n d.jobs)
      × IsLinked d'

  -- What `add_named_job` answers with: nothing changed with an error, or the job entered.
  abbrev pub IsAnswer : Dcron → Text → Text → ℕ → Option (AddError E) × Dcron → Type 0
  IsAnswer d name cron_str job (some already_exists, d') =
      (is_some (lookup name d.jobs) ≡ true) × (d' ≡ d)
  IsAnswer d name cron_str job (some (bad_spec e), d') =
      (lookup name d.jobs ≡ none) × (parse_spec cron_str ≡ err e) × (d' ≡ d)
  IsAnswer d name cron_str job (none, d') =
      (lookup name d.jobs ≡ none)
      × ((sched : ℕ → Option ℕ) × (parse_spec cron_str ≡ ok sched)
          × IsEntered d name cron_str job sched d')

  linked_with :
      (now : ℕ) (d : Dcron) (name cron_str : Text) (job : ℕ) (sched : ℕ → Option ℕ)
      → lookup name d.jobs ≡ none
      → IsLinked d
      → IsEntered d name cron_str job sched (record {
        jobs =
            insert name
              (record { id = d.cr.next_id + 1; name = name; cron_str = cron_str; job = job })
              d.jobs;
        cr = after_schedule now d.cr sched job;
      })
  linked_with now d name cron_str job sched new h =
      let id = d.cr.next_id + 1 in
      let inner : JobWarpper = record { id = id; name = name; cron_str = cron_str; job = job } in
      let cr = after_schedule now d.cr sched job in
      let (fresh, kept) = after_schedule-IsScheduled now d.cr sched job h.scheduler in
      let at = λ (n : Text). lookup-insert name n inner d.jobs in
      let (e, absent, there, its_schedule, its_job) =
        after_schedule-entry now d.cr sched job h.scheduler in
      (
        (
          id,
          e,
          at name ∙ ap (λ b. if b then some inner else lookup name d.jobs) (text_beq_refl name),
          absent,
          there,
          its_schedule,
          its_job,
        ),
        λ n other. ground (arith, at n),
        record {
          scheduler = after_schedule-IsScheduler now d.cr sched job h.scheduler;
          backed = λ n j e. ground (arith, at n, kept j.id, h.backed n j, e);
          own = λ m n j k e e' same. elim (Bool-cases (text_beq name m)) [
            | inl a ↦ elim (Bool-cases (text_beq name n)) [
              | inl b ↦ sym ((text_beq_iff name m).0 a) ∙ (text_beq_iff name n).0 b
              | inr b ↦ absurd (ground (arith, at m, at n, h.backed n k, fresh, e, e'))
            ]
            | inr a ↦ elim (Bool-cases (text_beq name n)) [
              | inl b ↦ absurd (ground (arith, at m, at n, h.backed m j, fresh, e, e'))
              | inr b ↦ h.own m n j k (ground (arith, at m, e)) (ground (arith, at n, e')) same
            ]
          ];
        },
      )

  answered :
      (now : ℕ) (d : Dcron) (name cron_str : Text) (job : ℕ) (o : Outcome E (ℕ → Option ℕ))
      → Ensures (λ _. Unit) o
      → parse_spec cron_str ≡ o
      → lookup name d.jobs ≡ none
      → IsLinked d
      → Returns (IsAnswer d name cron_str job) (
          add_job now d.cr o job >>= λ (answer, cr).
          entered E parse_spec d name cron_str job answer cr)
  unfolding add_job entered
  answered now d name cron_str job (ok sched) ends parsed new h =
      rw (schedule_lem now d.cr sched job)
        (new, (sched, parsed, linked_with now d name cron_str job sched new h))
  answered now d name cron_str job (err e) ends parsed new h = (new, parsed, refl)
  answered now d name cron_str job panic ends parsed new h = absurd ends
  answered now d name cron_str job out_of_fuel ends parsed new h = absurd ends

  -- Where each job of the table has an entry of its own, and with a parser that does not panic on
  -- the spec, `addJob` returns. It refuses a name that is taken, and a spec that the parser
  -- refuses, with the parser's error, and changes nothing then. Else the job stands in the table
  -- under its name, with its spec, beside the jobs from before; its identifier is new to the
  -- scheduler, whose entry for it has the schedule that the parser gave and the job; and each job
  -- of the table has an entry of its own in the scheduler, whether that runs or not.
  pub add_named_job-IsAnswer :
      (now : ℕ) (d : Dcron) (name cron_str : Text) (job : ℕ)
      → Ensures (λ _. Unit) (parse_spec cron_str)
      → IsLinked d
      → Returns (IsAnswer d name cron_str job) (add_named_job E parse_spec now d name cron_str job)
  unfolding add_named_job
  add_named_job-IsAnswer now d name cron_str job ends h = elim (Option-cases (lookup name d.jobs)) [
    | inl new ↦
        rw (add_named_job, new)
          (answered now d name cron_str job (parse_spec cron_str) ends refl new h)
    | inr (old, found) ↦ rw (add_named_job, found) (rw found refl, refl)
  ]
