-- ===== src/NodePool/Complete.antt =====
-- `update_hash_ring` keeps every replica of the nodes on the ring.
use go_dispatch.Ring.{remove}
use go_dispatch.NodePool.Listing.{occurs-sort}
use go_dispatch.Base.Sorting.{sort}
use go_dispatch.Base.Outcome.{Returns-inv, Returns}
use go_dispatch.NodePool.Tracking.{IsTracking}
use go_dispatch.NodePool.{
  is_nil, diff_nodes, ring_of, lift, update_hash_ring, remove_all, NodePool, add_all,
}
use go_dispatch.Ring.{add, Consistent, replication_factor}
use go_dispatch.NodePool.Diff.{diff_nodes-occurs, occurs}
use go_dispatch.Ring.Complete.{remove-IsComplete, add-IsComplete, IsComplete, NoCollisions}
use go_dispatch.Base.Keys.{text_lt, text_beq_refl, Text, text_eq, nat_eq}
use go_dispatch.Base.Shared.{
  Bool-cases, ℕ, ◌≤◌, ◌<◌, ◌≡◌, refl, inl, inr, ◌&&◌, some, List, [], ◌∷◌, arith,
}

abbrev pub AllKnown : (Text → Type 0) → List Text → Type 0
AllKnown IsKnown nodes = (x : Text) → 0 < occurs x nodes → IsKnown x

-- What an update keeps of a pool with a complete ring.
pub record Kept (sum64 : Text → ℕ) (IsKnown : Text → Type 0) (n : ℕ) (np np' : NodePool)
    : Type 0 where
  pub complete : IsComplete sum64 IsKnown n (ring_of sum64 np')
  pub node_id : np'.node_id ≡ np.node_id
  pub capacity_load : np'.capacity_load ≡ np.capacity_load
  pub nodes : np'.nodes ≡ some (ring_of sum64 np')

module _ (sum64 : Text → ℕ) (IsKnown : Text → Type 0) (apart : NoCollisions sum64 IsKnown) (n : ℕ)
    (few : n ≤ replication_factor) where
  tail_known : (x : Text) (xs : List Text) → AllKnown IsKnown (x ∷ xs) → AllKnown IsKnown xs
  tail_known x xs h y there = h y (ground (arith, there))

  head_known : (x : Text) (xs : List Text) → AllKnown IsKnown (x ∷ xs) → IsKnown x
  head_known x xs h = h x (ground (arith, text_beq_refl x))

  remove_all-IsComplete :
      (xs : List Text) (c : Consistent)
      → AllKnown IsKnown xs
      → IsComplete sum64 IsKnown n c
      → Returns (IsComplete sum64 IsKnown n) (remove_all sum64 xs c)
  unfolding remove_all lift
  remove_all-IsComplete [] c known h = h
  remove_all-IsComplete (x ∷ xs) c known h =
      let (res, e, h') =
        Returns-inv (λ (_, c'). IsComplete sum64 IsKnown n c') (remove sum64 c x)
          (remove-IsComplete sum64 IsKnown apart n few c x h (head_known x xs known)) in
      let (c', e', h'') =
        Returns-inv (IsComplete sum64 IsKnown n) _
          (remove_all-IsComplete xs res.1 (tail_known x xs known) h') in
      rw (e, lift, e') h''

  add_all-IsComplete :
      (xs : List Text) (c : Consistent)
      → AllKnown IsKnown xs
      → IsComplete sum64 IsKnown n c
      → IsComplete sum64 IsKnown n (add_all sum64 xs c)
  unfolding add_all
  add_all-IsComplete [] c known h = h
  add_all-IsComplete (x ∷ xs) c known h =
      add_all-IsComplete xs (add sum64 c x) (tail_known x xs known)
        (add-IsComplete sum64 IsKnown apart n few c x h (head_known x xs known))

  pub update_hash_ring-Kept :
      (now : ℕ) (np : NodePool) (nodes : List Text)
      → IsTracking sum64 np
      → IsComplete sum64 IsKnown n (ring_of sum64 np)
      → AllKnown IsKnown nodes
      → Returns (Kept sum64 IsKnown n np) (update_hash_ring sum64 now np nodes)
  unfolding update_hash_ring
  update_hash_ring-Kept now np nodes t h known =
      let sorted = sort text_lt nodes in
      let (added, removed) = diff_nodes np.pre_nodes sorted in
      elim (Bool-cases (is_nil added && is_nil removed)) [
        | inl same ↦
            rw same (record { complete = h; node_id = refl; capacity_load = refl; nodes = refl })
        | inr changed ↦
            let (c, e, h') = Returns-inv (IsComplete sum64 IsKnown n) _ (
              remove_all-IsComplete removed (ring_of sum64 np)
                (λ x there.
                  h.known x (ground (arith, diff_nodes-occurs np.pre_nodes sorted x, t.lists x)))
                h) in
            let h'' =
              add_all-IsComplete added c
                (λ x there. known x (
                  ground
                    (arith, diff_nodes-occurs np.pre_nodes sorted x, occurs-sort text_lt x nodes)))
                h' in
            rw (changed, e)
              (record { complete = h''; node_id = refl; capacity_load = refl; nodes = refl })
      ]
