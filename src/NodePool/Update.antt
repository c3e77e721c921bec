-- ===== src/NodePool/Update.antt =====
-- `update_hash_ring`: when the pool is steady, and what the ring lists afterwards.
use go_dispatch.Base.Outcome.{Returns, Returns-inv}
use go_dispatch.Base.Keys.{Text, text_eq, text_beq_refl, text_lt}
use go_dispatch.Base.Sorting.{sort, IsSorted}
use go_dispatch.NodePool.{NodePool, steady, upgrade, diff_nodes, is_nil, update_hash_ring, ring_of}
use go_dispatch.NodePool.Diff.{occurs, diff_nodes-occurs}
use go_dispatch.Ring.Invariant.{listed}
use go_dispatch.NodePool.Listing.{occurs-sort, AllUnlisted, remove_all-listed, add_all-listed}
use go_dispatch.Base.Shared.{
  ltb, if◌then◌else◌, Bool-cases, ℕ, ◌≡◌, refl, sym, ◌∙◌, ◌↔◌, ◌⊎◌, inl, inr, Bool, true, false,
  ◌&&◌, some, List, [], ◌∷◌, arith,
}

-- The two slices hold the same nodes, as often.
abbrev pub SameNodes : List Text → List Text → Type 0
SameNodes xs ys = (x : Text) → occurs x xs ≡ occurs x ys

no_occurrence : (xs : List Text) → ((x : Text) → occurs x xs ≡ 0) → is_nil xs ≡ true
no_occurrence [] h = refl
no_occurrence (x ∷ xs) h = ground (arith, h x, text_beq_refl x)

nil_occurrence : (xs : List Text) (x : Text) → is_nil xs ≡ true → occurs x xs ≡ 0
nil_occurrence [] x h = refl
nil_occurrence (y ∷ ys) x h = ground arith

-- There is no difference exactly when the slices hold the same nodes.
unchanged_iff :
    (xs ys : List Text)
    → ((is_nil (diff_nodes xs ys).0 && is_nil (diff_nodes xs ys).1) ≡ true) ↔ SameNodes xs ys
unchanged_iff xs ys = (forward, backward)
  where
    forward : (is_nil (diff_nodes xs ys).0 && is_nil (diff_nodes xs ys).1) ≡ true → SameNodes xs ys
    forward h x = ground (
      arith,
      nil_occurrence (diff_nodes xs ys).0 x,
      nil_occurrence (diff_nodes xs ys).1 x,
      diff_nodes-occurs xs ys x,
    )

    backward : SameNodes xs ys → (is_nil (diff_nodes xs ys).0 && is_nil (diff_nodes xs ys).1) ≡ true
    backward h = ground (
      arith,
      no_occurrence (diff_nodes xs ys).0 (λ x. ground (arith, h x, diff_nodes-occurs xs ys x)),
      no_occurrence (diff_nodes xs ys).1 (λ x. ground (arith, h x, diff_nodes-occurs xs ys x)),
    )

module _ (sum64 : Text → ℕ) (now : ℕ) (np : NodePool) (nodes : List Text) where
  abbrev sorted_nodes : List Text
  sorted_nodes = sort text_lt nodes

  abbrev is_unchanged : Bool
  is_unchanged =
      is_nil (diff_nodes np.pre_nodes sorted_nodes).0
      && is_nil (diff_nodes np.pre_nodes sorted_nodes).1

  -- The pool after an update that changed nothing.
  abbrev pub Settled : NodePool → Type 0
  Settled np' =
      SameNodes np.pre_nodes nodes
      × (np' ≡ record np { nodes = some (ring_of sum64 np); state = some steady })

  -- The pool after an update that found a difference: what the ring lists is what it listed,
  -- less the removed nodes, and the added ones.
  abbrev pub Upgraded : NodePool → Type 0
  Upgraded np' =
      (¬ SameNodes np.pre_nodes nodes)
      × (np'.state ≡ some upgrade)
      × (np'.pre_nodes ≡ sort text_lt nodes)
      × (np'.last_update ≡ some now)
      × IsSorted (ring_of sum64 np').sorted_set
      × ((y : Text)
          → listed (ring_of sum64 np') y ≡ (
              if ltb (occurs y np.pre_nodes) (occurs y nodes)
              then true
              else if ltb (occurs y nodes) (occurs y np.pre_nodes)
              then false
              else listed (ring_of sum64 np) y))

  abbrev pub Updated : NodePool → Type 0
  Updated np' = Settled np' ⊎ Upgraded np'

  same_sorted : SameNodes np.pre_nodes sorted_nodes ↔ SameNodes np.pre_nodes nodes
  same_sorted =
      (λ h x. h x ∙ occurs-sort text_lt x nodes, λ h x. h x ∙ sym (occurs-sort text_lt x nodes))

  -- On a ring in order an update never fails. If the driver's answer holds the nodes of the last
  -- one, in any order, the pool becomes steady and keeps its ring; otherwise it is upgrading,
  -- remembers the new nodes and the time, and has removed the nodes that stand less often in the
  -- answer and added those that stand there more often.
  pub update_hash_ring-cases :
      IsSorted (ring_of sum64 np).sorted_set → Returns Updated (update_hash_ring sum64 now np nodes)
  unfolding update_hash_ring
  update_hash_ring-cases h = elim (Bool-cases is_unchanged) [
    | inl same ↦
        rw same (inl (same_sorted.0 ((unchanged_iff np.pre_nodes sorted_nodes).0 same), refl))
    | inr changed ↦
        let (added, removed) = diff_nodes np.pre_nodes sorted_nodes in
        let (c, e, (sorted, less)) =
          Returns-inv (AllUnlisted sum64 removed (ring_of sum64 np)) _
            (remove_all-listed sum64 removed (ring_of sum64 np) h) in
        let (sorted', more) = add_all-listed sum64 added c sorted in
        rw (changed, e)
          (inr (
            (λ same.
                let still = (unchanged_iff np.pre_nodes sorted_nodes).1 (same_sorted.1 same) in cc),
            refl,
            refl,
            refl,
            sorted',
            λ y. ground (
              arith,
              more y,
              less y,
              diff_nodes-occurs np.pre_nodes sorted_nodes y,
              occurs-sort text_lt y nodes,
            ),
          ))
  ]
