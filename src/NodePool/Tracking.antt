-- ===== src/NodePool/Tracking.antt =====
-- What a run of updates establishes: the ring lists the nodes of the last answer, and two equal
-- answers in a row make the pool steady.
use go_dispatch.Base.Outcome.{◌>>=◌, Returns, Returns-inv}
use go_dispatch.Base.Keys.{Text, text_eq, text_lt}
use go_dispatch.Base.Sorting.{IsSorted}
use go_dispatch.NodePool.{NodePool, steady, update_hash_ring, ring_of}
use go_dispatch.NodePool.Diff.{occurs}
use go_dispatch.Ring.Invariant.{listed}
use go_dispatch.NodePool.Listing.{occurs-sort}
use go_dispatch.NodePool.Update.{Updated, SameNodes, Settled, Upgraded, update_hash_ring-cases}
use go_dispatch.Base.Shared.{
  ltb, ℕ, ◌≤◌, ◌<◌, ◌≡◌, refl, ap, ◌∙◌, ◌⊎◌, inl, inr, false, some, List, arith,
}

-- No node stands twice in the slice.
abbrev pub IsDistinct : List Text → Type 0
IsDistinct xs = (x : Text) → occurs x xs ≤ 1

-- The ring is in order and lists just the nodes that the pool remembers.
pub record IsTracking (sum64 : Text → ℕ) (np : NodePool) : Type 0 where
  pub sorted : IsSorted (ring_of sum64 np).sorted_set
  pub distinct : IsDistinct np.pre_nodes
  pub lists : (y : Text) → listed (ring_of sum64 np) y ≡ ltb 0 (occurs y np.pre_nodes)

module _ (sum64 : Text → ℕ) (np : NodePool) (nodes : List Text) (t : IsTracking sum64 np) where
  -- An answer without duplicates leaves the ring with just the nodes of the answer.
  tracked :
      (now : ℕ) (np' : NodePool)
      → IsDistinct nodes
      → Settled sum64 now np nodes np' ⊎ Upgraded sum64 now np nodes np'
      → IsTracking sum64 np' × SameNodes np'.pre_nodes nodes
  tracked now np' distinct (inl (same, e)) =
      rw e (record { sorted = t.sorted; distinct = t.distinct; lists = t.lists }, same)
  tracked now np' distinct (inr (_, _, pre, _, sorted, lists)) =
      let kept = λ (y : Text). ap (occurs y) pre ∙ occurs-sort text_lt y nodes in
      (
        record {
          sorted = sorted;
          distinct = λ y. ground (arith, distinct y, kept y);
          lists = λ y. ground (arith, lists y, t.lists y, kept y, distinct y, t.distinct y);
        },
        kept,
      )

  -- Where the ring is in order and lists the nodes that the pool remembers, each once, and the
  -- driver's answer names no node twice, an update ends without an error, and the ring then lists
  -- just the nodes of the answer.
  pub update_hash_ring-IsTracking :
      (now : ℕ)
      → IsDistinct nodes
      → Returns
          (λ np'. IsTracking sum64 np' × SameNodes np'.pre_nodes nodes)
          (update_hash_ring sum64 now np nodes)
  update_hash_ring-IsTracking now distinct =
      let (np', e, done) =
        Returns-inv (Updated sum64 now np nodes) _
          (update_hash_ring-cases sum64 now np nodes t.sorted) in
      rw e (tracked now np' distinct done)

  -- On a pool whose ring lists just the nodes that it remembers, two answers in a row that hold
  -- the same nodes, none of them twice, leave the pool steady, whatever its state was before, and
  -- it then remembers these nodes.
  pub update_twice_steady :
      (now later : ℕ) (again : List Text)
      → IsDistinct nodes
      → SameNodes nodes again
      → Returns
          (λ np'. (np'.state ≡ some steady) × SameNodes np'.pre_nodes again)
          (update_hash_ring sum64 now np nodes >>= λ np'. update_hash_ring sum64 later np' again)
  update_twice_steady now later again distinct same =
      let (np', e, done) =
        Returns-inv (Updated sum64 now np nodes) _
          (update_hash_ring-cases sum64 now np nodes t.sorted) in
      let (t', kept) = tracked now np' distinct done in
      let (np'', e', done') =
        Returns-inv (Updated sum64 later np' again) _
          (update_hash_ring-cases sum64 later np' again t'.sorted) in
      rw (e, e') (settled np' np'' kept done')
    where
      settled :
          (np' np'' : NodePool)
          → SameNodes np'.pre_nodes nodes
          → Settled sum64 later np' again np'' ⊎ Upgraded sum64 later np' again np''
          → (np''.state ≡ some steady) × SameNodes np''.pre_nodes again
      settled np' np'' kept (inl (s, at)) = rw at (refl, s)
      settled np' np'' kept (inr (differs, _, _, _, _, _)) = absurd (differs (λ x. kept x ∙ same x))

-- On a ring in order: an answer that names a node, and names it less often than the one before
-- did, takes that node off the ring though it is among the nodes that the pool then remembers.
pub update_drops_duplicate :
    (sum64 : Text → ℕ) (np : NodePool) (nodes : List Text) (now : ℕ) (x : Text)
    → IsSorted (ring_of sum64 np).sorted_set
    → 0 < occurs x nodes
    → occurs x nodes < occurs x np.pre_nodes
    → Returns
        (λ np'. (listed (ring_of sum64 np') x ≡ false) × (0 < occurs x np'.pre_nodes))
        (update_hash_ring sum64 now np nodes)
update_drops_duplicate sum64 np nodes now x sorted here fewer =
    let (np', e, done) =
      Returns-inv (Updated sum64 now np nodes) _
        (update_hash_ring-cases sum64 now np nodes sorted) in
    rw e (dropped np' done)
  where
    dropped :
        (np' : NodePool)
        → Settled sum64 now np nodes np' ⊎ Upgraded sum64 now np nodes np'
        → (listed (ring_of sum64 np') x ≡ false) × (0 < occurs x np'.pre_nodes)
    dropped np' (inl (same, _)) = absurd (omega (arith, same x))
    dropped np' (inr (_, _, pre, _, _, lists)) =
        let kept = ap (occurs x) pre ∙ occurs-sort text_lt x nodes in
        (ground (arith, lists x), ground (arith, kept))
