-- ===== src/Dcron/Cluster.antt =====
-- The nodes of a cluster that has come to rest: each activation runs on one of them.
use go_dispatch.Base.Maps.{lookup, Map}
use go_dispatch.Dcron.Share.{runs-owner, runners, runs}
use go_dispatch.Base.Outcome.{Returns-inv, ok}
use go_dispatch.Ring.Invariant.{listed}
use go_dispatch.NodePool.Update.{SameNodes}
use go_dispatch.NodePool.Converging.{HasConverged}
use go_dispatch.Ring.Canonical.{get-canonical}
use go_dispatch.NodePool.Tracking.{IsDistinct}
use go_dispatch.Ring.Owner.{get-IsOwner, IsOwner}
use go_dispatch.NodePool.{ring_of}
use go_dispatch.NodePool.Diff.{occurs}
use go_dispatch.Ring.Complete.{IsComplete, NoCollisions}
use go_dispatch.Dcron.Node.{Node, RecentJobs}
use go_dispatch.Base.Keys.{text_beq, text_beq_refl, Text, text_eq, nat_eq}
use go_dispatch.Ring.{replica_point, Consistent, replication_factor, get}
use go_dispatch.Base.Shared.{
  length, All, ℕ, ◌≤◌, ◌<◌, ◌≡◌, refl, sym, ◌∙◌, true, false, some, List, [], ◌∷◌, map, arith,
}

-- A node of the cluster that asks its pool, whose pool has seen the cluster come to rest.
pub record IsResting (r : RecentJobs) (sum64 : Text → ℕ) (IsKnown : Text → Type 0) (n : ℕ)
    (nodes : List Text) (m : Node r) : Type 0 where
  pub pool : HasConverged sum64 IsKnown n nodes m.pool.node_id m.pool
  pub asks : m.capacity_load ≡ false

module _ (r : RecentJobs) (sum64 : Text → ℕ) (IsKnown : Text → Type 0)
    (apart : NoCollisions sum64 IsKnown) (n : ℕ) (few : n ≤ replication_factor)
    (some_replica : 0 < n) (nodes : List Text) where
  abbrev ring_in : Node r → Consistent
  ring_in m = ring_of sum64 m.pool

  listed_hosts :
      (c : Consistent) (x : Text)
      → IsComplete sum64 IsKnown n c
      → listed c x ≡ true
      → 0 < length c.hosts
  unfolding lookup
  listed_hosts c x h there =
      some_entry c.hosts (replica_point sum64 x 0) x (h.planted x 0 there some_replica)
    where
      some_entry :
          (hosts : Map ℕ Text) (p : ℕ) (y : Text) → lookup p hosts ≡ some y → 0 < length hosts
      some_entry [] p y e = absurd cc
      some_entry (_ ∷ hosts) p y e = omega arith

  resting-runs :
      (now : ℕ × ℕ) (name x y : Text) (m : Node r)
      → 0 < occurs y nodes
      → get sum64 (ring_in m) name ≡ ok x
      → IsResting r sum64 IsKnown n nodes m
      → runs r sum64 now name m ≡ text_beq m.pool.node_id x
  resting-runs now name x y m some_node got h =
      runs-owner r sum64 (ring_in m) h.pool.complete.ring
        (listed_hosts (ring_in m) y h.pool.complete (ground (arith, h.pool.lists y))) now name x m
        got (record { pool = h.pool.steady_on; asks = h.asks })

  same_answer :
      (name : Text) (m m' : Node r)
      → IsResting r sum64 IsKnown n nodes m
      → IsResting r sum64 IsKnown n nodes m'
      → get sum64 (ring_in m) name ≡ get sum64 (ring_in m') name
  same_answer name m m' h h' =
      get-canonical sum64 IsKnown apart n few (ring_in m) (ring_in m') h.pool.complete
        h'.pool.complete (λ y. h.pool.lists y ∙ sym (h'.pool.lists y)) name

  runners-occurs :
      (now : ℕ × ℕ) (name x y : Text) (m : Node r) (ms : List (Node r))
      → 0 < occurs y nodes
      → get sum64 (ring_in m) name ≡ ok x
      → IsResting r sum64 IsKnown n nodes m
      → All (IsResting r sum64 IsKnown n nodes) ms
      → runners r sum64 now name ms ≡ occurs x (map (λ m'. m'.pool.node_id) ms)
  runners-occurs now name x y m [] some_node got h hs = refl
  runners-occurs now name x y m (m' ∷ ms) some_node got h (h', hs) = ground (
    arith,
    resting-runs now name x y m' some_node (same_answer name m' m h' h ∙ got) h',
    runners-occurs now name x y m ms some_node got h hs,
  )

  -- The host that owns the first point clockwise is one of the nodes.
  owner-occurs :
      (name x : Text) (m : Node r)
      → IsOwner (ring_in m).hosts (sum64 name) x
      → IsResting r sum64 IsKnown n nodes m
      → 0 < occurs x nodes
  owner-occurs name x m (p, owned, _) h =
      ground (arith, h.pool.lists x, h.pool.complete.ring.spread.listed p x owned)

  -- In a cluster of nodes that differ, where each pool has seen the cluster come to rest, in
  -- whatever order it saw the nodes come and go before, an activation of a job is run by one node
  -- and by no other. The nodes have at least one replica each and at most 50, no two of which
  -- share a point.
  pub runners-one :
      (now : ℕ × ℕ) (name : Text) (m : Node r) (ms : List (Node r))
      → All (IsResting r sum64 IsKnown n nodes) (m ∷ ms)
      → IsDistinct nodes
      → SameNodes (map (λ m'. m'.pool.node_id) (m ∷ ms)) nodes
      → runners r sum64 now name (m ∷ ms) ≡ 1
  runners-one now name m ms (h, hs) distinct same =
      let id = m.pool.node_id in
      let here : 0 < occurs id nodes = ground (arith, same id, text_beq_refl id) in
      let (x, got, own) = Returns-inv (IsOwner (ring_in m).hosts (sum64 name)) _ (
        get-IsOwner sum64 (ring_in m) h.pool.complete.ring name
          (listed_hosts (ring_in m) id h.pool.complete (ground (arith, h.pool.lists id)))) in
      omega (
        arith,
        runners-occurs now name x id m (m ∷ ms) here got h (h, hs),
        same x,
        distinct x,
        owner-occurs name x m own h,
      )
