-- ===== src/Tests/Nodes.antt =====
-- The theorems on dcron at small nodes, and a heap for the packer of the recent jobs.
use go_dispatch.Dcron.Packer.Refines.{new_packer-History, History}
use go_dispatch.Dcron.Packer.Laws.{HeapLaws, SameJobs}
use go_dispatch.Dcron.Setup.{
  built, with_cluster_stable, with_capacity_load, runners-capacity, with_hash_replicas, DcronOption,
}
use go_dispatch.Dcron.Rerun.{pending_names, missed_job-executed}
use go_dispatch.NodePool.Diff.{occurs}
use go_dispatch.Ring.{get}
use go_dispatch.Base.Sorting.{IsSortedBy}
use go_dispatch.Dcron.Packer.Fills.{packer_jobs-Keeps, packer_jobs}
use go_dispatch.Tests.{ring_a-IsRing, host_b, weigh, ring_a, host_a}
use go_dispatch.NodePool.{upgrade, steady, NodePool}
use go_dispatch.Dcron.Node.{rerun_jobs, run_job, Node, RecentJobs}
use go_dispatch.Base.Maps.{lookup}
use go_dispatch.Dcron.Share.{runners, IsSteadyNode}
use go_dispatch.Dcron.Packer.{
  pop_call, new_recent_job_packer, packs, add_call, Call, Heap, JobWithTime, job_less,
}
use go_dispatch.Base.Keys.{codes, text_beq, Text, text_eq, nat_eq}
use go_dispatch.Base.Outcome.{Returns, ◌>>=◌}
use go_dispatch.Points.{search}
use go_dispatch.Cron.{new}
use go_dispatch.Tests.Pools.{pool_of, pool-IsSteadyOn}
use go_dispatch.Base.Shared.{
  if◌then◌else◌, Bool-cases, All, ℕ, ◌<◌, ◌≡◌, refl, inl, inr, true, false, Option, none, some,
  List, [], ◌∷◌, map, arith,
}

-- A heap that is a list in order.
slot : JobWithTime → List JobWithTime → List JobWithTime
slot x [] = x ∷ []
slot x (y ∷ ys) = let rest = slot x ys in if job_less y x then y ∷ rest else x ∷ y ∷ ys

abbrev first_of : List JobWithTime → Option (JobWithTime × List JobWithTime)
first_of [] = none
first_of (x ∷ xs) = some (x, xs)

abbrev listed_heap : Heap
listed_heap = record { init = λ jobs. jobs; push = slot; pop = first_of }

not_less_trans :
    (x y z : JobWithTime) → job_less y x ≡ false → job_less z y ≡ false → job_less z x ≡ false
unfolding job_less
not_less_trans x y z h k = ground (arith, h, k)

All-not_less :
    (x y : JobWithTime) (zs : List JobWithTime)
    → job_less y x ≡ false
    → All (λ z. job_less z y ≡ false) zs
    → All (λ z. job_less z x ≡ false) zs
All-not_less x y [] h k = tt
All-not_less x y (z ∷ zs) h k = (not_less_trans x y z h k.0, All-not_less x y zs h k.1)

All-slot :
    (x y : JobWithTime) (xs : List JobWithTime)
    → job_less x y ≡ false
    → All (λ z. job_less z y ≡ false) xs
    → All (λ z. job_less z y ≡ false) (slot x xs)
unfolding slot
All-slot x y [] h k = (h, tt)
All-slot x y (z ∷ zs) h k = ground (arith, h, k.0, k.1, All-slot x y zs h k.1)

less_flip : (x y : JobWithTime) → job_less y x ≡ true → job_less x y ≡ false
unfolding job_less
less_flip x y h = ground (arith, h)

slot-IsSortedBy :
    (x : JobWithTime) (xs : List JobWithTime)
    → IsSortedBy job_less xs
    → IsSortedBy job_less (slot x xs)
unfolding slot
slot-IsSortedBy x [] h = (tt, tt)
slot-IsSortedBy x (y ∷ ys) h = elim (Bool-cases (job_less y x)) [
  | inl e ↦ rw e (All-slot x y ys (less_flip x y e) h.0, slot-IsSortedBy x ys h.1)
  | inr e ↦ rw e ((e, All-not_less x y ys e h.0), h)
]

slot-SameJobs : (x : JobWithTime) (xs : List JobWithTime) → SameJobs (slot x xs) (x ∷ xs)
unfolding slot
slot-SameJobs x [] p = refl
slot-SameJobs x (y ∷ ys) p = ground (arith, slot-SameJobs x ys p)

abbrev listed_heap_laws : HeapLaws listed_heap
listed_heap_laws = record {
  IsHeap = IsSortedBy job_less;
  least = λ x xs h. h.0;
  init-nil = (refl, tt);
  push-IsHeap = λ x xs h. (slot-IsSortedBy x xs h, slot-SameJobs x xs);
  pop-IsHeap = λ x xs h. (xs, refl, h.1, λ p. refl);
}

abbrev job : Text
job = codes "job"

abbrev two_calls : List Call
two_calls = add_call job 3 4 ∷ pop_call ∷ []

new_packer-History_example :
    Returns
      (λ (answers, p'). History 10 two_calls [] answers p'.recent_jobs)
      (packs listed_heap two_calls (new_recent_job_packer 10))
new_packer-History_example = new_packer-History listed_heap listed_heap_laws 10 two_calls

abbrev jobs_of : RecentJobs
jobs_of = packer_jobs listed_heap listed_heap_laws 10

-- A node with one job in its table and no job remembered.
abbrev node_of : NodePool → Node jobs_of
node_of pool = record {
  table = record {
    jobs = (job, record { id = 1; name = job; cron_str = []; job = 7 }) ∷ [];
    cr = new [];
  };
  pool = pool;
  capacity_load = false;
  recent = some (new_recent_job_packer 10, tt);
  upgrading = false;
  running = true;
  rerun = [];
  executed = [];
}

abbrev steady_pool : Text → NodePool
steady_pool id = pool_of id (host_a ∷ []) steady

abbrev two_nodes : List (Node jobs_of)
two_nodes = node_of (steady_pool host_a) ∷ node_of (steady_pool host_b) ∷ []

steady_nodes : All (IsSteadyNode jobs_of ring_a) two_nodes
steady_nodes = (
  record { pool = pool-IsSteadyOn host_a; asks = refl },
  (record { pool = pool-IsSteadyOn host_b; asks = refl }, tt),
)

missed_job-executed_example :
    Returns
      (λ n'. 0 < occurs job n'.executed)
      (do
        n1 ← run_job jobs_of weigh (5, 7) job (node_of (pool_of host_a (host_a ∷ []) upgrade))
        n2 ← run_job jobs_of weigh (8, 8) job (record n1 { pool = steady_pool host_a })
        rerun_jobs jobs_of weigh (pending_names n2.rerun) n2)
unfolding lookup text_beq get search weigh
missed_job-executed_example =
    missed_job-executed jobs_of weigh ring_a ring_a-IsRing (omega arith) (5, 7) (8, 8) job job
      (node_of (pool_of host_a (host_a ∷ []) upgrade)) (new_recent_job_packer 10, tt)
      (record { id = 1; name = job; cron_str = []; job = 7 }) ring_a (steady_pool host_a)
      (λ (p, _). p.time_window) (packer_jobs-Keeps listed_heap listed_heap_laws 10) (omega arith)
      refl (omega arith) refl refl refl refl (pool-IsSteadyOn host_a) refl

-- A node with the pool of "a" and one with that of "b", both made to count loads.
abbrev capacity_nodes : List (List DcronOption × NodePool)
capacity_nodes =
    (with_hash_replicas 7 ∷ with_capacity_load ∷ [], steady_pool host_a)
    ∷ (with_capacity_load ∷ with_cluster_stable 5 ∷ [], steady_pool host_b)
    ∷ []

abbrev packer_of : ℕ → jobs_of.State
packer_of window = (new_recent_job_packer window, tt)

runners-capacity_example :
    runners jobs_of weigh (5, 5) job (map (built jobs_of packer_of weigh) capacity_nodes) ≡ 2
runners-capacity_example =
    runners-capacity jobs_of packer_of weigh (5, 5) job capacity_nodes (refl, (refl, tt))
