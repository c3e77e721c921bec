-- ===== src/Dcron/Share.antt =====
-- One activation of a job on the nodes of a cluster.
use go_dispatch.NodePool.Diff.{occurs}
use go_dispatch.Ring.Owner.{get-IsOwner, IsOwner}
use go_dispatch.NodePool.{is_eligible}
use go_dispatch.Base.Outcome.{Returns-inv, out_of_fuel, Returns, panic, err, ok}
use go_dispatch.NodePool.Eligible.{eligible_answer, IsSteadyOn}
use go_dispatch.Ring.Invariant.{IsRing}
use go_dispatch.Base.Keys.{text_beq, Text}
use go_dispatch.Ring.{get, Consistent}
use go_dispatch.Dcron.Node.{run_job-answered, hand_over, execute, run_job, Node, RecentJobs}
use go_dispatch.Base.Shared.{
  ltb, if◌then◌else◌, length, All, length-append, ℕ, suc, ◌<◌, ◌≡◌, refl, Bool, false, some, List,
  [], ◌∷◌, ◌++◌, map, arith,
}

-- A node that asks its pool, which is steady over the ring `c`.
pub record IsSteadyNode (r : RecentJobs) (c : Consistent) (n : Node r) : Type 0 where
  pub pool : IsSteadyOn c n.pool
  pub asks : n.capacity_load ≡ false

-- A node has asked, and has run the job if it is `due` on it.
pub record Asked (r : RecentJobs) (due : Bool) (name : Text) (n n' : Node r) : Type 0 where
  pub pool : n'.pool ≡ n.pool
  pub table : n'.table ≡ n.table
  pub executed : n'.executed ≡ (if due then n.executed ++ name ∷ [] else n.executed)
  pub handed :
      (st : r.State) → n.recent ≡ some st → n'.rerun ≡ n.rerun ++ (r.pop_all_jobs st).0 ∷ []

module _ (r : RecentJobs) (sum64 : Text → ℕ) where
  -- Whether the node runs the job when it is activated.
  abbrev pub runs : ℕ × ℕ → Text → Node r → Bool
  runs now name n = elim (run_job r sum64 now name n) [
    | ok n' ↦ ltb (length n.executed) (length n'.executed)
    | err e ↦ false
    | panic ↦ false
    | out_of_fuel ↦ false
  ]

  -- How many of the nodes run it.
  abbrev pub runners : ℕ × ℕ → Text → List (Node r) → ℕ
  runners now name [] = 0
  runners now name (n ∷ ns) =
      let rest = runners now name ns in if runs now name n then suc rest else rest

module _ (r : RecentJobs) (sum64 : Text → ℕ) (c : Consistent) (ring : IsRing sum64 c)
    (some_host : 0 < length c.hosts) where
  after : Bool → Text → Node r → Node r
  after due name n =
      let n' = hand_over r sum64 (record n { upgrading = false }) in
      if due then execute r sum64 name n' else n'

  after-Asked : (due : Bool) (name : Text) (n : Node r) → Asked r due name n (after due name n)
  unfolding after
  after-Asked due name n = record {
    pool = ground arith;
    table = ground arith;
    executed = ground arith;
    handed = λ st found. ground arith;
  }

  allowed :
      (now : ℕ × ℕ) (name : Text) (due : Bool) (n : Node r)
      → is_eligible sum64 n.pool name ≡ ok (due, n.pool)
      → n.capacity_load ≡ false
      → run_job r sum64 now name n ≡ ok (after due name n)
  unfolding after
  allowed now name due n e asks = run_job-answered r sum64 now name n _ e asks

  pub run_job-Asked :
      (now : ℕ × ℕ) (name x : Text) (n : Node r)
      → get sum64 c name ≡ ok x
      → IsSteadyNode r c n
      → Returns (Asked r (text_beq n.pool.node_id x) name n) (run_job r sum64 now name n)
  run_job-Asked now name x n got s =
      rw
        (allowed now name _ n (eligible_answer sum64 c name ring some_host x n.pool got s.pool)
          s.asks)
        (after-Asked (text_beq n.pool.node_id x) name n)

  pub runs-owner :
      (now : ℕ × ℕ) (name x : Text) (n : Node r)
      → get sum64 c name ≡ ok x
      → IsSteadyNode r c n
      → runs r sum64 now name n ≡ text_beq n.pool.node_id x
  runs-owner now name x n got s =
      let (n', e, a) =
        Returns-inv (Asked r (text_beq n.pool.node_id x) name n) _
          (run_job-Asked now name x n got s) in
      rw (runs, e) (ground (arith, a.executed, length-append n.executed (name ∷ [])))

  -- Where each node that is listed is steady over the same well-formed ring and asks its pool, an
  -- activation of a job is run by just as many of them as have the name of one host, which owns
  -- the first point clockwise from the hash of the job's name.
  pub runners-owner :
      (now : ℕ × ℕ) (name : Text) (ns : List (Node r))
      → All (IsSteadyNode r c) ns
      → Returns
          (λ x.
            IsOwner c.hosts (sum64 name) x
            × (runners r sum64 now name ns ≡ occurs x (map (λ n. n.pool.node_id) ns)))
          (get sum64 c name)
  runners-owner now name ns steady_all =
      let (x, got, own) =
        Returns-inv (IsOwner c.hosts (sum64 name)) _ (get-IsOwner sum64 c ring name some_host) in
      rw got (own, counted x got ns steady_all)
    where
      counted :
          (x : Text)
          → get sum64 c name ≡ ok x
          → (ns : List (Node r)) → All (IsSteadyNode r c) ns
          → runners r sum64 now name ns ≡ occurs x (map (λ n. n.pool.node_id) ns)
      counted x got [] h = refl
      counted x got (n ∷ ns) h =
          ground (arith, runs-owner now name x n got h.0, counted x got ns h.1)
