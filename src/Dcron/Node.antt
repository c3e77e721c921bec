-- ===== src/Dcron/Node.antt =====
-- dcron/dcron.go and dcron/job_warpper.go: a node that runs the jobs of its table. The recent jobs
-- are behind the interface IRecentJobPacker.
use go_dispatch.NodePool.Starting.{still_waiting, serving, refused, PoolStart, start_pool}
use mathlib.Core.Path.{ap₂}
use go_dispatch.Base.Maps.{Map, lookup}
use go_dispatch.NodePool.Life.{pool_stop, Answer}
use go_dispatch.NodePool.{is_eligible, PoolError, NodePool}
use go_dispatch.Base.Outcome.{out_of_fuel, panic, err, ok, ◌>>=◌, Outcome}
use go_dispatch.Dcron.{JobWarpper, Dcron}
use go_dispatch.Cron.{blocked, Wait, start, stop}
use go_dispatch.Base.Keys.{Text, text_eq}
use go_dispatch.Base.Shared.{
  if◌then◌else◌, ℕ, ◌≡◌, Bool, true, false, Option, none, some, List, [], ◌∷◌, ◌++◌,
}

-- `add_job name t now` is AddJob(name, t), where the clock that AddJob reads itself is at `now`.
pub record RecentJobs : Type 1 where
  pub State : Type 0
  pub add_job : Text → ℕ → ℕ → State → State
  pub pop_all_jobs : State → List Text × State

-- `upgrading` is dcron's own state; `rerun` holds the jobs handed to each `go reRunRecentJobs`, and
-- `executed` the names of the jobs that ran, in order.
pub record Node (r : RecentJobs) : Type 0 where
  pub table : Dcron
  pub pool : NodePool
  pub capacity_load : Bool
  pub recent : Option r.State
  pub upgrading : Bool
  pub running : Bool
  pub rerun : List (List Text)
  pub executed : List Text

module _ (r : RecentJobs) (sum64 : Text → ℕ) where
  -- `Execute` of a job that is there.
  abbrev pub execute : Text → Node r → Node r
  execute name n = record n { executed = n.executed ++ name ∷ [] }

  -- The recent jobs are taken out and handed to a goroutine.
  abbrev pub hand_over : Node r → Node r
  hand_over n = elim n.recent [
    | none ↦ n
    | some st ↦
        let (names, st') = r.pop_all_jobs st in
        record n { recent = some st'; rerun = n.rerun ++ names ∷ [] }
  ]

  -- The clock is read twice: for the time of the job, and by AddJob.
  abbrev pub remember : ℕ × ℕ → Text → Node r → Node r
  remember now name n = elim n.recent [
    | none ↦ n
    | some st ↦ record n { recent = some (r.add_job name now.0 now.1 st) }
  ]

  -- An error of IsEligible is logged, and counts as no.
  unfoldable pub allow_this_node_run : ℕ × ℕ → Text → Node r → Outcome PoolError (Bool × Node r)
  allow_this_node_run now name n = elim (is_eligible sum64 n.pool name) [
    | ok (answer, pool) ↦ ok (answer, hand_over (record n { pool = pool; upgrading = false }))
    | err e ↦ ok (false, remember now name (record n { upgrading = true }))
    | panic ↦ panic
    | out_of_fuel ↦ out_of_fuel
  ]

  -- `Run` of a JobWarpper. With loads counted every node runs the job.
  unfoldable pub run_job : ℕ × ℕ → Text → Node r → Outcome PoolError (Node r)
  unfolding allow_this_node_run
  run_job now name n =
      let asked = allow_this_node_run now name n >>= λ (answer, n').
      ok (if answer then execute name n' else n') in
      if n.capacity_load then ok (execute name n) else asked

  -- `Run` where the pool is asked and answers `o`.
  abbrev pub answered :
      ℕ × ℕ → Text → Node r → Outcome PoolError (Bool × NodePool) → Outcome PoolError (Node r)
  answered now name n o =
      (elim o [
        | ok (answer, pool) ↦ ok (answer, hand_over (record n { pool = pool; upgrading = false }))
        | err e ↦ ok (false, remember now name (record n { upgrading = true }))
        | panic ↦ panic
        | out_of_fuel ↦ out_of_fuel
      ])
      >>= λ (answer, n'). ok (if answer then execute name n' else n')

  pub run_job-answered :
      (now : ℕ × ℕ) (name : Text) (n : Node r) (o : Outcome PoolError (Bool × NodePool))
      → is_eligible sum64 n.pool name ≡ o
      → n.capacity_load ≡ false
      → run_job now name n ≡ answered now name n o
  unfolding run_job allow_this_node_run
  run_job-answered now name n o e asks =
      ap₂ (λ load o'. if load then ok (execute name n) else answered now name n o') asks e

  -- `reRunRecentJobs`
  unfoldable pub rerun_jobs : List Text → Node r → Outcome PoolError (Node r)
  rerun_jobs [] n = ok n
  rerun_jobs (name ∷ names) n = elim (lookup name n.table.jobs) [
    | none ↦ rerun_jobs names n
    | some _ ↦ elim (is_eligible sum64 n.pool name) [
      | ok (answer, pool) ↦
          let n' : Node r = record n { pool = pool } in
          rerun_jobs names (if answer then execute name n' else n')
      | err e ↦ rerun_jobs names n
      | panic ↦ panic
      | out_of_fuel ↦ out_of_fuel
    ]
  ]

  -- `Start`. The driver and the rounds of the pool are as in `start_pool`; while that waits, so does
  -- this. `recover` is the RecoverFunc.
  unfoldable pub node_start :
      {E : Type 0}
      → (Node r → Node r)
      → ℕ
      → Option E
      → Text
      → Outcome E (List Text)
      → List (List Answer)
      → Node r
      → Outcome PoolError (Node r)
  node_start {E} recover now started id answer waits n =
      let n' = recover n in
      let fresh : Outcome PoolError (Node r) =
        start_pool sum64 now started id answer waits n'.pool >>= λ (s : PoolStart E). elim s [
          | refused e pool ↦ ok (record n' { pool = pool; running = false })
          | serving pool ↦ ok (record n' {
            pool = pool;
            running = true;
            table = record n'.table { cr = start now n'.table.cr };
          })
          | still_waiting pool ↦ ok (record n' { pool = pool; running = true })
        ] in
      if n'.running then ok n' else fresh

  -- `Run`, which calls Run of the scheduler where Start calls its Start: up to the first event of
  -- the scheduler's loop these do the same.
  unfoldable pub node_run :
      {E : Type 0}
      → (Node r → Node r)
      → ℕ
      → Option E
      → Text
      → Outcome E (List Text)
      → List (List Answer)
      → Node r
      → Outcome PoolError (Node r)
  unfolding node_start
  node_run recover now started id answer waits n = node_start recover now started id answer waits n

-- `Stop`, where Driver.Stop ends as `stopped`; on a node that does not run it waits forever.
unfoldable pub node_stop {ℓ} :
    {r : RecentJobs} {E : Type ℓ} → Outcome {ℓ, 0} E Unit → Node r → Outcome Wait (Node r)
node_stop {r} stopped n =
    let over : NodePool → Node r = λ pool. record n {
      pool = pool;
      running = false;
      table = record n.table { cr = stop n.table.cr };
    } in
    pool_stop stopped n.pool >>= λ pool. if n.running then ok (over pool) else err blocked

-- `NodeID`, that of the pool.
abbrev pub node_id_of : {r : RecentJobs} → Node r → Text
node_id_of n = n.pool.node_id

-- `List`
abbrev pub jobs_of_node : {r : RecentJobs} → Node r → Map Text JobWarpper
jobs_of_node n = n.table.jobs
