-- ===== src/NodePool/Converging.antt =====
-- The life of a pool from its start: which pool a cluster that has come to rest leaves.
use go_dispatch.Base.Maps.{lookup}
use go_dispatch.NodePool.Eligible.{IsSteadyOn}
use go_dispatch.NodePool.Diff.{occurs}
use go_dispatch.NodePool.Life.{pool_life, pool_start, refresh, refreshes, Answer}
use go_dispatch.Ring.Invariant.{listed}
use go_dispatch.NodePool.Complete.{Kept, update_hash_ring-Kept, AllKnown}
use go_dispatch.NodePool.Update.{Updated, update_hash_ring-cases, SameNodes}
use go_dispatch.NodePool.Tracking.{update_hash_ring-IsTracking, IsTracking, IsDistinct}
use go_dispatch.NodePool.{upgrade, new_node_pool, update_hash_ring, steady, ring_of, NodePool}
use go_dispatch.Ring.{with_default_load, with_replicas, new, replication_factor}
use go_dispatch.Ring.Complete.{IsComplete, NoCollisions}
use go_dispatch.Base.Outcome.{bind_assoc, Returns-inv, Returns-both, Returns, ◌>>=◌}
use go_dispatch.Base.Keys.{Text, text_eq, nat_eq}
use go_dispatch.Base.Shared.{
  ltb, is_some, ℕ, ◌≤◌, ◌≡◌, refl, sym, ap, ◌∙◌, inl, inr, true, false, none, some, List, [], ◌∷◌,
  ◌++◌, arith,
}

-- Between two rounds, for a pool of the node `id` in the mode that does not count loads.
pub record IsFollowing (sum64 : Text → ℕ) (IsKnown : Text → Type 0) (n : ℕ) (id : Text)
    (np : NodePool) : Type 0 where
  pub tracking : IsTracking sum64 np
  pub complete : IsComplete sum64 IsKnown n (ring_of sum64 np)
  pub node_id : np.node_id ≡ id
  pub plain : np.capacity_load ≡ false

-- The pool after an update with `nodes`.
pub record HasFollowed (sum64 : Text → ℕ) (IsKnown : Text → Type 0) (n : ℕ) (id : Text)
    (nodes : List Text) (np np' : NodePool) : Type 0 where
  pub following : IsFollowing sum64 IsKnown n id np'
  pub same : SameNodes np'.pre_nodes nodes
  pub ring : np'.nodes ≡ some (ring_of sum64 np')
  pub steady : SameNodes np.pre_nodes nodes → np'.state ≡ some steady
  pub stored : is_some np'.state ≡ true

-- The pool of the node `id` when the cluster `nodes` has come to rest.
pub record HasConverged (sum64 : Text → ℕ) (IsKnown : Text → Type 0) (n : ℕ) (nodes : List Text)
    (id : Text) (np : NodePool) : Type 0 where
  pub complete : IsComplete sum64 IsKnown n (ring_of sum64 np)
  pub lists : (y : Text) → listed (ring_of sum64 np) y ≡ ltb 0 (occurs y nodes)
  pub steady_on : IsSteadyOn (ring_of sum64 np) np
  pub node_id : np.node_id ≡ id

module _ (sum64 : Text → ℕ) (IsKnown : Text → Type 0) (apart : NoCollisions sum64 IsKnown) (n : ℕ)
    (few : n ≤ replication_factor) where
  pub update-HasFollowed :
      (now : ℕ) (id : Text) (np : NodePool) (nodes : List Text)
      → IsFollowing sum64 IsKnown n id np
      → IsDistinct nodes
      → AllKnown IsKnown nodes
      → Returns (HasFollowed sum64 IsKnown n id nodes np) (update_hash_ring sum64 now np nodes)
  update-HasFollowed now id np nodes f distinct known =
      let (np', e, ((t, same), (kept, done))) =
        Returns-inv
          (λ np'.
            (IsTracking sum64 np' × SameNodes np'.pre_nodes nodes)
            × (Kept sum64 IsKnown n np np' × Updated sum64 now np nodes np'))
          (update_hash_ring sum64 now np nodes)
          (Returns-both _ _ (update_hash_ring sum64 now np nodes)
            (update_hash_ring-IsTracking sum64 np nodes f.tracking now distinct)
            (Returns-both _ _ (update_hash_ring sum64 now np nodes)
              (update_hash_ring-Kept sum64 IsKnown apart n few now np nodes f.tracking f.complete
                known)
              (update_hash_ring-cases sum64 now np nodes f.tracking.sorted))) in
      rw e (record {
        following = record {
          tracking = t;
          complete = kept.complete;
          node_id = kept.node_id ∙ f.node_id;
          plain = kept.capacity_load ∙ f.plain;
        };
        same = same;
        ring = kept.nodes;
        steady = λ again. settled np' again done;
        stored = known_state np' done;
      })
    where
      settled :
          (np' : NodePool)
          → SameNodes np.pre_nodes nodes
          → Updated sum64 now np nodes np'
          → np'.state ≡ some steady
      settled np' again (inl (_, e)) = rw e refl
      settled np' again (inr (differs, _, _, _, _, _)) = absurd (differs again)

      known_state : (np' : NodePool) → Updated sum64 now np nodes np' → is_some np'.state ≡ true
      known_state np' (inl (_, e)) = rw e refl
      known_state np' (inr (_, e, _, _, _, _)) = rw e refl

  -- Every answer that is no error names known nodes, and none of them twice.
  abbrev pub AreFine : List Answer → Type 0
  AreFine [] = Unit
  AreFine ((now, none) ∷ answers) = AreFine answers
  AreFine ((now, some nodes) ∷ answers) =
      IsDistinct nodes × AllKnown IsKnown nodes × AreFine answers

  refreshes-IsFollowing :
      (answers : List Answer) (id : Text) (np : NodePool)
      → IsFollowing sum64 IsKnown n id np
      → AreFine answers
      → Returns (IsFollowing sum64 IsKnown n id) (refreshes sum64 answers np)
  unfolding refreshes refresh
  refreshes-IsFollowing [] id np f fine = f
  refreshes-IsFollowing ((now, none) ∷ answers) id np f fine =
      refreshes-IsFollowing answers id np f fine
  refreshes-IsFollowing ((now, some nodes) ∷ answers) id np f (distinct, known, fine) =
      let (np', e, h) =
        Returns-inv (HasFollowed sum64 IsKnown n id nodes np) _
          (update-HasFollowed now id np nodes f distinct known) in
      rw e (refreshes-IsFollowing answers id np' h.following fine)

  -- Two updates in a row with the same nodes.
  twice-HasConverged :
      (now later : ℕ) (id : Text) (np : NodePool) (nodes first again : List Text)
      → IsFollowing sum64 IsKnown n id np
      → IsDistinct nodes
      → AllKnown IsKnown nodes
      → SameNodes first nodes
      → SameNodes again nodes
      → Returns
          (HasConverged sum64 IsKnown n nodes id)
          (refreshes sum64 ((now, some first) ∷ (later, some again) ∷ []) np)
  unfolding refreshes refresh
  twice-HasConverged now later id np nodes first again f distinct known same same' =
      let (np', e, h) = Returns-inv (HasFollowed sum64 IsKnown n id first np) _ (
        update-HasFollowed now id np first f (λ x. ground (arith, distinct x, same x))
          (λ x there. known x (ground (arith, there, same x)))) in
      let (np'', e', h') = Returns-inv (HasFollowed sum64 IsKnown n id again np') _ (
        update-HasFollowed later id np' again h.following (λ x. ground (arith, distinct x, same' x))
          (λ x there. known x (ground (arith, there, same' x)))) in
      rw (e, e')
        (record {
          complete = h'.following.complete;
          lists = λ y. h'.following.tracking.lists y ∙ ap (ltb 0) (h'.same y ∙ same' y);
          steady_on = record {
            ring = h'.ring;
            is_steady = h'.steady (λ x. h.same x ∙ same x ∙ sym (same' x));
            plain = h'.following.plain;
          };
          node_id = h'.following.node_id;
        })

  pub refreshes-append :
      (earlier later : List Answer) (np : NodePool)
      → refreshes sum64 (earlier ++ later) np
        ≡ (refreshes sum64 earlier np >>= λ np'. refreshes sum64 later np')
  unfolding refreshes
  refreshes-append [] later np = refl
  refreshes-append (answer ∷ earlier) later np =
      bind_assoc (refresh sum64 answer np) (refreshes sum64 (earlier ++ later))
        (refreshes sum64 earlier) (refreshes sum64 later)
        (λ np'. refreshes-append earlier later np')

  pub started-IsFollowing :
      (id : Text)
      → IsFollowing sum64 IsKnown n id
          (record (new_node_pool n false) { node_id = id; state = some upgrade })
  unfolding new_node_pool new with_replicas with_default_load lookup
  started-IsFollowing id = record {
    tracking = record { sorted = tt; distinct = λ x. omega arith; lists = λ y. refl };
    complete = record {
      ring = record {
        spread = record {
          index = record { is_map = tt; counts = λ p. refl; size = refl };
          loads_map = tt;
          listed = λ p x e. absurd cc;
          placed = λ p x e. absurd cc;
        };
        sorted = tt;
      };
      replicas = refl;
      known = λ y e. absurd cc;
      planted = λ y k e. absurd cc;
    };
    node_id = refl;
    plain = refl;
  }

  -- A new pool, in the mode that does not count loads and with at most 50 replicas for a node, is
  -- started on a driver that answers: with known nodes none of which it names twice, or with
  -- errors, and in the end, twice in a row, with the same known nodes. No two of the first 50
  -- replicas of known nodes share a point on the ring. Then no round fails, the pool is steady, and its ring lists just these nodes, with
  -- a point for each of their replicas.
  pub pool_life-HasConverged :
      (E : Type 0) (start now later : ℕ) (id : Text) (first : List Text) (earlier : List Answer)
      (nodes one two : List Text)
      → AreFine ((start, some first) ∷ earlier)
      → IsDistinct nodes
      → AllKnown IsKnown nodes
      → SameNodes one nodes
      → SameNodes two nodes
      → Returns
          (λ (failed, np). (failed ≡ none) × HasConverged sum64 IsKnown n nodes id np)
          (pool_life sum64 {E = E} n start id first
            (earlier ++ (now, some one) ∷ (later, some two) ∷ []))
  unfolding pool_start
  pool_life-HasConverged E start now later id first earlier nodes one two (distinct', known', fine)
        distinct known same same' =
      let (np, e, h) = Returns-inv (HasFollowed sum64 IsKnown n id first _) _ (
        update-HasFollowed start id
          (record (new_node_pool n false) { node_id = id; state = some upgrade }) first
          (started-IsFollowing id) distinct' known') in
      let (np', e', f) =
        Returns-inv (IsFollowing sum64 IsKnown n id) _
          (refreshes-IsFollowing earlier id np h.following fine) in
      let (np'', e'', c) =
        Returns-inv (HasConverged sum64 IsKnown n nodes id) _
          (twice-HasConverged now later id np' nodes one two f distinct known same same') in
      rw (e, refreshes-append earlier ((now, some one) ∷ (later, some two) ∷ []) np, e', e'')
        (refl, c)
