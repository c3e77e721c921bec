-- ===== src/Ring/Listing.antt =====
-- Which hosts a ring lists after `add` and `remove`, also where points collide: only the order of
-- the slice is taken for granted.
use go_dispatch.Base.Int.{pos}
use go_dispatch.Base.Outcome.{Returns, Returns-inv}
use go_dispatch.Base.Keys.{Text, text_eq, nat_eq, text_beq, text_beq_iff}
use go_dispatch.Base.Maps.{lookup, insert, erase, lookup-insert, lookup-erase}
use go_dispatch.Base.Sorting.{IsSorted, sort-IsSortedBy, ltb_order}
use go_dispatch.Points.Delete.{IsCut, del_slice-IsCut}
use go_dispatch.Ring.{
  Consistent, Host, add, remove, remove_replicas, replica_point, replication_factor,
}
use go_dispatch.Ring.Loads.{add_replicas_loads}
use go_dispatch.Base.Shared.{
  ltb, if◌then◌else◌, Bool-cases, Option-cases, is_some, ℕ, zero, suc, ◌+◌, ◌≡◌, refl, ap, ◌∙◌, inl,
  inr, Bool, true, false, arith,
}

module _ (sum64 : Text → ℕ) (x : Text) where
  abbrev KeepsLoads : Consistent → Consistent → Type 0
  KeepsLoads c c' = IsSorted c'.sorted_set × (c'.load_map ≡ c.load_map)

  remove_replicas_loads :
      (left i : ℕ) (c : Consistent)
      → IsSorted c.sorted_set
      → Returns (KeepsLoads c) (remove_replicas sum64 x left i c)
  unfolding remove_replicas
  remove_replicas_loads zero i c h = (h, refl)
  remove_replicas_loads (suc left) i c h =
      let p = replica_point sum64 x i in
      let (out, e, cut) =
        Returns-inv (IsCut c.sorted_set (replica_point sum64 x i) h) _
          (del_slice-IsCut c.sorted_set (replica_point sum64 x i) h) in
      rw e (
        remove_replicas_loads left (i + 1)
          (record c { hosts = erase (replica_point sum64 x i) c.hosts; sorted_set = out })
          cut.still_sorted)

  -- After `remove` the slice is in order, and of the hosts only `x` is no longer listed.
  abbrev pub Unlisted : Consistent → Bool × Consistent → Type 0
  Unlisted c (_, c') =
      IsSorted c'.sorted_set
      × ((y : Text)
          → is_some (lookup y c'.load_map)
            ≡ (if text_beq x y then false else is_some (lookup y c.load_map)))

  pub remove-listed :
      (c : Consistent) → IsSorted c.sorted_set → Returns (Unlisted c) (remove sum64 c x)
  unfolding remove
  remove-listed c h =
      let (c', e, (sorted, same)) =
        Returns-inv (KeepsLoads c) _ (remove_replicas_loads replication_factor 0 c h) in
      rw e (sorted, λ y. rw same (ground (arith, lookup-erase x y c.load_map)))

  pub add-listed :
      (c : Consistent)
      → IsSorted c.sorted_set
      → IsSorted (add sum64 c x).sorted_set
        × ((y : Text)
            → is_some (lookup y (add sum64 c x).load_map)
              ≡ (if text_beq x y then true else is_some (lookup y c.load_map)))
  unfolding add
  add-listed c h = elim (Option-cases (lookup x c.load_map)) [
    | inr (k, e) ↦
        rw (e, add)
          (
            h,
            λ y. elim (Bool-cases (text_beq x y)) [
              | inl same ↦
                  let mine : x ≡ y = (text_beq_iff x y).0 same in
                  ground (arith, ap (λ z. lookup z c.load_map) mine)
              | inr other ↦ rw other
            ],
          )
    | inl e ↦
        let new : Host = record { name = x; load = pos 0 } in
        let (same_map, _) =
          add_replicas_loads sum64 x c.replicas 0
            (record c { load_map = insert x (record { name = x; load = pos 0 }) c.load_map }) in
        rw (e, add)
          (
            sort-IsSortedBy ltb ltb_order _,
            λ y.
                ap (λ m. is_some (lookup y m)) same_map
                ∙ ground (arith, lookup-insert x y new c.load_map),
          )
  ]
