-- ===== src/NodePool/Life.antt =====
-- nodepool/nodepool.go: Start, Stop and the rounds of waitingForHashRing. What the driver answers
-- is an argument.
use go_dispatch.NodePool.Diff.{occurs}
use go_dispatch.Ring.Invariant.{listed}
use go_dispatch.NodePool.Update.{update_hash_ring-cases, Updated, Upgraded, Settled, SameNodes}
use go_dispatch.Base.Sorting.{IsSorted}
use go_dispatch.Base.Outcome.{
  Ensures, out_of_fuel, panic, ◌>>=◌, err, ok, Returns-inv, Returns, Outcome,
}
use go_dispatch.NodePool.Tracking.{update_hash_ring-IsTracking, IsDistinct, IsTracking}
use go_dispatch.NodePool.{new_node_pool, upgrade, update_hash_ring, PoolError, ring_of, NodePool}
use go_dispatch.Base.Keys.{Text}
use go_dispatch.Base.Shared.{
  ltb, ◌==◌, if◌then◌else◌, ℕ, ◌+◌, ◌≡◌, refl, ap, ◌∙◌, ◌⊎◌, inl, inr, true, false, Option, none,
  some, List, [], ◌∷◌, arith,
}
use go_dispatch.Cron.{Wait, blocked}

-- What the driver's GetNodes answered and when; `none` for an error, which is logged.
abbrev pub Answer : Type 0
Answer = ℕ × Option (List Text)

-- `Stop`, where Driver.Stop ends as `stopped`, and an error of it is dropped. The channel holds one
-- message: while it is full the send blocks. Stop leaves the ring as it is.
unfoldable pub pool_stop {ℓ} :
    {E : Type ℓ} → Outcome {ℓ, 0} E Unit → NodePool → Outcome Wait NodePool
pool_stop stopped np =
    let np' : NodePool = record np { stop_chan = np.stop_chan + 1; pre_nodes = [] } in
    let driven : Outcome Wait NodePool = elim stopped [
      | ok _ ↦ ok np'
      | err e ↦ ok np'
      | panic ↦ panic
      | out_of_fuel ↦ out_of_fuel
    ] in
    if np.stop_chan == 0 then driven else err blocked

-- A call that does not panic answers with a value or an error.
ended {ℓ κ} :
    {E : Type ℓ} {A : Type κ} (r : Outcome E A)
    → Ensures (λ _. Unit) r
    → ((a : A) × (r ≡ ok a)) ⊎ ((e : E) × (r ≡ err e))
ended (ok a) h = inl (a, refl)
ended (err e) h = inr (e, refl)
ended panic h = absurd h
ended out_of_fuel h = absurd h

module _ (sum64 : Text → ℕ) where
  -- One round of waitingForHashRing.
  unfoldable pub refresh : Answer → NodePool → Outcome PoolError NodePool
  refresh (now, none) np = ok np
  refresh (now, some nodes) np = update_hash_ring sum64 now np nodes

  unfoldable pub refreshes : List Answer → NodePool → Outcome PoolError NodePool
  unfolding refresh
  refreshes [] np = ok np
  refreshes (answer ∷ answers) np = refresh answer np >>= λ np'. refreshes answers np'

  -- `Start` up to its wait for the steady state: the error that it returns, if any, and the pool.
  -- `started` is the error of the driver's Start, `id` its NodeID.
  unfoldable pub pool_start {ℓ} :
      {E : Type ℓ}
      → ℕ
      → Option E
      → Text
      → Outcome E (List Text)
      → NodePool
      → Outcome PoolError (Option E × NodePool)
  pool_start now (some e) id answer np = ok (some e, np)
  pool_start now none id (err e) np = ok (some e, record np { node_id = id })
  pool_start now none id (ok nodes) np = do
    np' ← update_hash_ring sum64 now (record np { node_id = id; state = some upgrade }) nodes
    ok (none, np')
  pool_start now none id panic np = panic
  pool_start now none id out_of_fuel np = out_of_fuel

  -- What the pool of the node `id` is after its start and the rounds that follow, with `replicas`
  -- replicas and loads that are not counted.
  abbrev pub pool_life {ℓ} :
      {E : Type ℓ}
      → ℕ
      → ℕ
      → Text
      → List Text
      → List Answer
      → Outcome PoolError (Option E × NodePool)
  pool_life replicas now id first answers = do
    (failed, np) ← pool_start now none id (ok first) (new_node_pool replicas false)
    np' ← refreshes answers np
    ok (failed, np')

  -- The nodes of the last answer that was no error, or `nodes` if there is none.
  abbrev pub last_nodes : List Answer → List Text → List Text
  last_nodes [] nodes = nodes
  last_nodes ((now, none) ∷ answers) nodes = last_nodes answers nodes
  last_nodes ((now, some more) ∷ answers) nodes = last_nodes answers more

  -- No answer names a node twice.
  abbrev pub AreDistinct : List Answer → Type 0
  AreDistinct [] = Unit
  AreDistinct ((now, none) ∷ answers) = AreDistinct answers
  AreDistinct ((now, some nodes) ∷ answers) = IsDistinct nodes × AreDistinct answers

  refreshes_from :
      (answers : List Answer) (np : NodePool) (nodes : List Text)
      → IsTracking sum64 np
      → SameNodes np.pre_nodes nodes
      → AreDistinct answers
      → Returns
          (λ np'. IsTracking sum64 np' × SameNodes np'.pre_nodes (last_nodes answers nodes))
          (refreshes answers np)
  unfolding refreshes refresh
  refreshes_from [] np nodes t same d = (t, same)
  refreshes_from ((now, none) ∷ answers) np nodes t same d =
      refreshes_from answers np nodes t same d
  refreshes_from ((now, some more) ∷ answers) np nodes t same d =
      let (np', e, (t', same')) =
        Returns-inv (λ np'. IsTracking sum64 np' × SameNodes np'.pre_nodes more) _
          (update_hash_ring-IsTracking sum64 np more t now d.0) in
      rw e (refreshes_from answers np' more t' same' d.1)

  -- On a pool whose ring is in order and lists just the nodes that it remembers, and that
  -- remembers no node twice: whatever the driver answers round after round, nodes without duplicates or errors, no round fails, and in the end the
  -- ring lists just the nodes of the last answer that was no error, or those from before where
  -- every answer was one.
  pub refreshes-listed :
      (answers : List Answer) (np : NodePool)
      → IsTracking sum64 np
      → AreDistinct answers
      → Returns
          (λ np'.
            (y : Text)
            → listed (ring_of sum64 np') y ≡ ltb 0 (occurs y (last_nodes answers np.pre_nodes)))
          (refreshes answers np)
  refreshes-listed answers np t d =
      let (np', e, (t', same)) =
        Returns-inv
          (λ np'. IsTracking sum64 np' × SameNodes np'.pre_nodes (last_nodes answers np.pre_nodes))
          _ (refreshes_from answers np np.pre_nodes t (λ x. refl) d) in
      rw e (λ y. t'.lists y ∙ ap (ltb 0) (same y))

  -- On a pool with a ring in order, where no earlier message of a Stop is left on the channel and
  -- Driver.Stop ends, with or without an error: Stop returns, and the pool that is then started
  -- again keeps every node on its ring, whether the driver still names it or not.
  pub restart_keeps_nodes {ℓ κ} :
      {F : Type κ} (E : Type ℓ) (now : ℕ) (stopped : Outcome {κ, 0} F Unit) (np : NodePool)
      (nodes : List Text) (id x : Text)
      → np.stop_chan ≡ 0
      → Ensures (λ _. Unit) stopped
      → IsSorted (ring_of sum64 np).sorted_set
      → listed (ring_of sum64 np) x ≡ true
      → Returns
          (λ np1.
            Returns
              (λ (_, np'). listed (ring_of sum64 np') x ≡ true)
              (pool_start {E = E} now none id (ok nodes) np1))
          (pool_stop stopped np)
  unfolding pool_start pool_stop
  restart_keeps_nodes E now stopped np nodes id x free ends sorted there =
      let (np', e, done) =
        Returns-inv (Updated sum64 now again nodes) _
          (update_hash_ring-cases sum64 now again nodes sorted) in
      elim (ended stopped ends) [
        | inl ((_, fine)) ↦ rw (free, fine, e) (kept np' done)
        | inr ((_, dropped)) ↦ rw (free, dropped, e) (kept np' done)
      ]
    where
      again : NodePool
      again = record np {
        stop_chan = np.stop_chan + 1;
        node_id = id;
        pre_nodes = [];
        state = some upgrade;
      }

      kept :
          (np' : NodePool)
          → Settled sum64 now again nodes np' ⊎ Upgraded sum64 now again nodes np'
          → listed (ring_of sum64 np') x ≡ true
      kept np' (inl (_, at)) = rw at there
      kept np' (inr (_, _, _, _, _, lists)) = ground (arith, lists x, there)
