-- ===== src/Dcron.antt =====
-- dcron/dcron.go: the table of the named jobs and the entries of the scheduler that stand for them.
-- The parser is the parameter `parse_spec`.
pub mod Linked
pub mod Node
pub mod Share
pub mod Cluster
pub mod Lives
pub mod Setup
pub mod Packer
pub mod Rerun
use go_dispatch.Base.Maps.{insert, erase, lookup, Map}
use go_dispatch.Base.Outcome.{out_of_fuel, panic, err, ◌>>=◌, ok, Outcome}
use go_dispatch.Cron.Entries.{EntryId}
use go_dispatch.Base.Keys.{Text, text_eq}
use go_dispatch.Cron.{reset_entries, add_job, Wait, Cron, remove}
use go_dispatch.Base.Shared.{ℕ, ◌-◌, ◌/◌, Option, none, some, []}

-- The error of a name that is taken, or that of the parser.
pub data AddError {ℓ} (E : Type ℓ) : Type ℓ where
  already_exists : AddError E
  bad_spec : E → AddError E

-- A job as it stands in the table. Jobs are handles, numbers.
pub record JobWarpper : Type 0 where
  pub id : EntryId
  pub name : Text
  pub cron_str : Text
  pub job : ℕ

pub record Dcron : Type 0 where
  pub jobs : Map Text JobWarpper
  pub cr : Cron

module _ {ℓ} (E : Type ℓ) (parse_spec : Text → Outcome E (ℕ → Option ℕ)) where
  -- What is left of `addJob` when the scheduler has answered; `none` is the error nil.
  entered :
      Dcron
      → Text
      → Text
      → ℕ
      → Outcome E EntryId
      → Cron
      → Outcome Wait (Option (AddError E) × Dcron)
  entered d name cron_str job (ok id) cr =
      let inner : JobWarpper = record { id = id; name = name; cron_str = cron_str; job = job } in
      ok (none, record d { jobs = insert name inner d.jobs; cr = cr })
  entered d name cron_str job (err e) cr = ok (some (bad_spec e), record d { cr = cr })
  entered d name cron_str job panic cr = panic
  entered d name cron_str job out_of_fuel cr = out_of_fuel

  -- `addJob` on the clock's time `now`.
  unfoldable pub add_named_job :
      ℕ → Dcron → Text → Text → ℕ → Outcome Wait (Option (AddError E) × Dcron)
  unfolding entered
  add_named_job now d name cron_str job =
      let added = add_job now d.cr (parse_spec cron_str) job >>= λ (answer, cr).
      entered d name cron_str job answer cr in
      elim (lookup name d.jobs) [ some _ ↦ ok (some already_exists, d) | none ↦ added ]

-- `Remove`
unfoldable pub remove_named_job : Dcron → Text → Dcron
remove_named_job d name = elim (lookup name d.jobs) [
  | none ↦ d
  | some job ↦ record d { jobs = erase name d.jobs; cr = remove d.cr job.id }
]

-- `CleanJobs` blocks where the scheduler's `ResetEntries` does.
unfoldable pub clean_jobs : Dcron → Outcome Wait Dcron
clean_jobs d = reset_entries d.cr >>= λ cr. ok (record d { jobs = []; cr = cr })
