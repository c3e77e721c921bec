-- ===== src/Dcron/Rerun.antt =====
-- A job that is activated while the pool is upgrading is run later.
use mathlib.Core.Path.{subst, ap₂}
use go_dispatch.Dcron.Share.{run_job-Asked, Asked}
use go_dispatch.Base.Outcome.{◌>>=◌}
use go_dispatch.Dcron.{Dcron, JobWarpper}
use go_dispatch.Base.Keys.{text_beq_refl, text_beq_iff, text_eq}
use go_dispatch.Ring.Owner.{get-IsOwner, IsOwner}
use go_dispatch.Base.Maps.{lookup}
use go_dispatch.NodePool.Eligible.{eligible_answer, is_eligible-upgrading, IsSteadyOn}
use go_dispatch.Ring.Invariant.{IsRing}
use go_dispatch.Base.Outcome.{out_of_fuel, panic, err, Returns-inv, ok, Returns}
use go_dispatch.NodePool.{NodePool, upgrade}
use go_dispatch.Ring.{get, Consistent}
use go_dispatch.NodePool.Diff.{occurs-append, occurs}
use go_dispatch.Base.Keys.{text_beq, Text}
use go_dispatch.Dcron.Node.{execute, rerun_jobs, run_job-answered, Node, run_job, RecentJobs}
use go_dispatch.Base.Shared.{
  if◌then◌else◌, Option-cases, is_some, length, ℕ, ◌+◌, ◌≤◌, ◌<◌, ◌≡◌, refl, sym, ap, ◌∙◌, inl, inr,
  Bool, true, false, ◌&&◌, some, List, [], ◌∷◌, ◌++◌, arith,
}

-- A job that is added within the window before AddJob reads the clock is there when all jobs are
-- taken out.
abbrev pub Keeps : (r : RecentJobs) → (r.State → ℕ) → Type 0
Keeps r window =
    (name : Text) (t now : ℕ) (st : r.State)
    → now ≤ t + window st
    → 0 < occurs name (r.pop_all_jobs (r.add_job name t now st)).0

-- What a node remembers of a job that it could not ask for.
pub record Missed (r : RecentJobs) (now : ℕ × ℕ) (name : Text) (n n' : Node r) : Type 0 where
  pub pool : n'.pool ≡ n.pool
  pub table : n'.table ≡ n.table
  pub executed : n'.executed ≡ n.executed
  pub asks : n'.capacity_load ≡ n.capacity_load
  pub upgrading : n'.upgrading ≡ true
  pub recent :
      (st : r.State) → n.recent ≡ some st → n'.recent ≡ some (r.add_job name now.0 now.1 st)

-- The names handed to the goroutines, in their order.
abbrev pub pending_names : List (List Text) → List Text
pending_names [] = []
pending_names (names ∷ more) = names ++ pending_names more

occurs-pending_names :
    (y : Text) (batches : List (List Text)) (names : List Text)
    → occurs y names ≤ occurs y (pending_names (batches ++ names ∷ []))
occurs-pending_names y [] names = ground (arith, occurs-append y names [])
occurs-pending_names y (batch ∷ batches) names = ground (
  arith,
  occurs-append y batch (pending_names (batches ++ names ∷ [])),
  occurs-pending_names y batches names,
)

module _ (r : RecentJobs) (sum64 : Text → ℕ) where
  run_job-Missed :
      (now : ℕ × ℕ) (name : Text) (n : Node r) (c : Consistent)
      → n.pool.nodes ≡ some c
      → 0 < length c.hosts
      → n.pool.state ≡ some upgrade
      → n.capacity_load ≡ false
      → Returns (Missed r now name n) (run_job r sum64 now name n)
  run_job-Missed now name n c nodes some_host up asks =
      rw
        (run_job-answered r sum64 now name n _
          (is_eligible-upgrading sum64 n.pool c name nodes some_host up) asks)
        (record {
          pool = ground arith;
          table = ground arith;
          executed = ground arith;
          asks = ground arith;
          upgrading = ground arith;
          recent = λ st found. ground arith;
        })

  module _ (c : Consistent) (ring : IsRing sum64 c) (some_host : 0 < length c.hosts) where
    abbrev mine_of : Dcron → NodePool → Text → Bool
    mine_of d np name = is_some (lookup name d.jobs) && (elim (get sum64 c name) [
      | ok x ↦ text_beq np.node_id x
      | err e ↦ false
      | panic ↦ false
      | out_of_fuel ↦ false
    ])

    -- Whether the node has the job in its table and the job's name is its own on the ring.
    abbrev pub mine : Node r → Text → Bool
    mine n name = mine_of n.table n.pool name

    rerun_one :
        (name : Text) (names : List Text) (n : Node r)
        → IsSteadyOn c n.pool
        → rerun_jobs r sum64 (name ∷ names) n
          ≡ rerun_jobs r sum64 names (if mine n name then execute r sum64 name n else n)
    unfolding rerun_jobs
    rerun_one name names n s =
        let (x, got, _) =
          Returns-inv (IsOwner c.hosts (sum64 name)) _ (get-IsOwner sum64 c ring name some_host) in
        let answer = eligible_answer sum64 c name ring some_host x n.pool got s in
        elim (Option-cases (lookup name n.table.jobs)) [
          | inl absent ↦ rw (rerun_jobs, absent) refl
          | inr (job, found) ↦ rw (rerun_jobs, mine, found, answer, got) refl
        ]

    -- The jobs were run that are the node's own, each as often as it is named.
    pub record Reran (names : List Text) (n n' : Node r) : Type 0 where
      pub pool : n'.pool ≡ n.pool
      pub table : n'.table ≡ n.table
      pub executed :
          (y : Text)
          → occurs y n'.executed ≡ occurs y n.executed + (if mine n y then occurs y names else 0)

    due-mine :
        (due : Bool) (name y : Text) (n : Node r)
        → mine n name ≡ due
        → text_beq name y ≡ true
        → mine n y ≡ due
    due-mine due name y n e same = rw (← (text_beq_iff name y).0 same) e

    Reran-step :
        (due : Bool) (name : Text) (names : List Text) (n n' : Node r)
        → mine n name ≡ due
        → Reran names (if due then execute r sum64 name n else n) n'
        → Reran (name ∷ names) n n'
    Reran-step true name names n n' e h = record {
      pool = h.pool;
      table = h.table;
      executed = λ y.
          ground
            (arith, h.executed y, occurs-append y n.executed (name ∷ []), due-mine true name y n e);
    }
    Reran-step false name names n n' e h = record {
      pool = h.pool;
      table = h.table;
      executed = λ y. ground (arith, h.executed y, due-mine false name y n e);
    }

    still_steady :
        (due : Bool) (name : Text) (n : Node r)
        → IsSteadyOn c n.pool
        → IsSteadyOn c (if due then execute r sum64 name n else n).pool
    still_steady true name n s = s
    still_steady false name n s = s

    pub rerun_jobs-Reran :
        (names : List Text) (n : Node r)
        → IsSteadyOn c n.pool
        → Returns (Reran names n) (rerun_jobs r sum64 names n)
    unfolding rerun_jobs
    rerun_jobs-Reran [] n s = record { pool = refl; table = refl; executed = λ y. ground arith }
    rerun_jobs-Reran (name ∷ names) n s =
        let next : Node r = if mine n name then execute r sum64 name n else n in
        let (n', e, h) =
          Returns-inv (Reran names next) _
            (rerun_jobs-Reran names next (still_steady (mine n name) name n s)) in
        rw (rerun_one name names n s, e) (Reran-step (mine n name) name names n n' refl h)

    mine_by :
        (name : Text) (job : JobWarpper) (n n' : Node r) (pool : NodePool)
        → lookup name n.table.jobs ≡ some job
        → get sum64 c name ≡ ok pool.node_id
        → n'.table ≡ n.table
        → n'.pool ≡ pool
        → mine n' name ≡ true
    mine_by name job n n' pool listed own table same =
        ap₂ (λ d np. mine_of d np name) table same ∙ given
      where
        given : mine_of n.table pool name ≡ true
        given = rw (listed, own) (text_beq_refl pool.node_id)

    more_after :
        (due : Bool) (y other : Text) (xs ys : List Text)
        → ys ≡ (if due then xs ++ other ∷ [] else xs)
        → occurs y xs ≤ occurs y ys
    more_after true y other xs ys e = rw e (ground (arith, occurs-append y xs (other ∷ [])))
    more_after false y other xs ys e = rw e (omega arith)

    -- A job of the table is activated on a node that was made WithClusterStable, so that it keeps
    -- recent jobs, and that does not count loads, while its pool, over a ring with a host, is
    -- upgrading. Where AddJob reads the clock within the window after the time that it is given,
    -- and the packer keeps the jobs of the window: once the pool is steady, in the mode that does
    -- not count loads, over a well-formed ring with a host, on which the job's name is the node's
    -- own, the next activation, of any job, hands the name to a goroutine, and the goroutines, one
    -- after the other, run the job.
    pub missed_job-executed :
        (now later : ℕ × ℕ) (name other : Text) (n : Node r) (st : r.State) (job : JobWarpper)
        (old : Consistent) (pool : NodePool) (window : r.State → ℕ)
        → Keeps r window
        → now.1 ≤ now.0 + window st
        → n.pool.nodes ≡ some old
        → 0 < length old.hosts
        → n.pool.state ≡ some upgrade
        → n.capacity_load ≡ false
        → n.recent ≡ some st
        → lookup name n.table.jobs ≡ some job
        → IsSteadyOn c pool
        → get sum64 c name ≡ ok pool.node_id
        → Returns
            (λ n'. occurs name n.executed < occurs name n'.executed)
            (do
              n1 ← run_job r sum64 now name n
              n2 ← run_job r sum64 later other (record n1 { pool = pool })
              rerun_jobs r sum64 (pending_names n2.rerun) n2)
    missed_job-executed now later name other n st job old pool window keeps soon nodes hosts up asks
          has listed steady own =
        let (n1, e1, m) =
          Returns-inv (Missed r now name n) _ (run_job-Missed now name n old nodes hosts up asks) in
        let recent = m.recent st has in
        let n1' : Node r = record n1 { pool = pool } in
        let (x, got, _) =
          Returns-inv (IsOwner c.hosts (sum64 other)) _
            (get-IsOwner sum64 c ring other some_host) in
        let (n2, e2, a) = Returns-inv (Asked r (text_beq pool.node_id x) other n1') _ (
          run_job-Asked r sum64 c ring some_host later other x n1' got
            (record { pool = steady; asks = m.asks ∙ asks })) in
        let (n3, e3, again) = Returns-inv (Reran (pending_names n2.rerun) n2) _ (
          rerun_jobs-Reran (pending_names n2.rerun) n2
            (subst (IsSteadyOn c) (sym a.pool) steady)) in
        let batch = (r.pop_all_jobs (r.add_job name now.0 now.1 st)).0 in
        let given : occurs name (pending_names n2.rerun)
            ≡ occurs name (pending_names (n1.rerun ++ batch ∷ [])) =
          ap (λ b. occurs name (pending_names b))
            (a.handed (r.add_job name now.0 now.1 st) recent) in
        rw (e1, e2, e3)
          (ground (
            arith,
            again.executed name,
            given,
            occurs-pending_names name n1.rerun batch,
            keeps name now.0 now.1 st soon,
            mine_by name job n n2 pool listed own (a.table ∙ m.table) a.pool,
            more_after (text_beq pool.node_id x) name other n1.executed n2.executed a.executed,
            ap (occurs name) m.executed,
          ))
