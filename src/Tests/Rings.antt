-- ===== src/Tests/Rings.antt =====
-- The theorems on the ring at a ring of one host.
use go_dispatch.Ring.Wip.Follows.{get_least_wip-get_least}
use go_dispatch.Ring.Wip.{get_least_wip}
use go_dispatch.Base.Maps.{erase}
use go_dispatch.Points.{del_slice}
use go_dispatch.Base.Keys.{text_beq}
use go_dispatch.Ring.Loads.{performs-IsBalanced, call_inc, call_update, call_done}
use go_dispatch.Base.Maps.{insert}
use go_dispatch.Base.Sorting.{sort}
use go_dispatch.Base.Int.{◌+ℤ◌}
use go_dispatch.Base.Keys.{text_eq, nat_eq, decimal}
use go_dispatch.Points.{search}
use go_dispatch.Ring.Loads.{call_add}
use go_dispatch.Base.Keys.{text_beq_iff, codes}
use go_dispatch.Points.{del_slice}
use go_dispatch.Ring.Owner.{get-IsOwner, IsOwner}
use go_dispatch.Ring.Removing.{remove_leaves, remove-IsRemoved, Removed}
use go_dispatch.Base.Int.{◌+ℤ◌, pos, wrap64}
use go_dispatch.Ring.Invariant.{IsRing}
use go_dispatch.Ring.Least.{get_least-IsPick, IsPick, IsCovered}
use go_dispatch.Ring.Adding.{add-IsAdded, IsAdded}
use go_dispatch.Base.Outcome.{ok, Returns}
use go_dispatch.Ring.Disruption.{
  add_disrupts_little, remove_disrupts_little, remove-add, SameRing, IsOwn,
}
use go_dispatch.Ring.Loads.{remove_unbalances, sum_loads, performs, IsBalanced}
use go_dispatch.Base.Maps.{lookup}
use go_dispatch.Tests.{
  host_b-IsFresh, ring_at-IsRing, ring_a-IsRing, host_b, point_a, all_below-true, ring_at, host_a,
  ring_a, weigh,
}
use go_dispatch.Ring.{Consistent, get_least, get, add, remove, replica_point, load_bound}
use go_dispatch.Base.Shared.{
  ◌==◌, ℕ, ◌+◌, ◌*◌, ◌<◌, ◌≡◌, refl, ◌≢◌, ◌⊎◌, inl, inr, true, not, none, some, [], ◌∷◌, arith,
}

get-IsOwner_example :
    Returns (IsOwner ring_a.hosts (weigh (codes "job"))) (get weigh ring_a (codes "job"))
get-IsOwner_example = get-IsOwner weigh ring_a ring_a-IsRing (codes "job") (omega arith)

add-IsAdded_example : IsAdded weigh host_b ring_a (add weigh ring_a host_b)
unfolding lookup text_beq
add-IsAdded_example = add-IsAdded weigh host_b ring_a ring_a-IsRing refl host_b-IsFresh

remove-IsRemoved_example : Returns (Removed weigh host_a ring_a) (remove weigh ring_a host_a)
remove-IsRemoved_example = remove-IsRemoved weigh host_a ring_a ring_a-IsRing

-- A ring with 51 replicas, and the point of the last of them.
abbrev late_point : ℕ
late_point = 97 + 256 * (53 + 256 * 48)

late-IsRing : IsRing weigh (ring_at late_point 0 51)
unfolding weigh replica_point decimal
late-IsRing = ring_at-IsRing late_point 0 51 50 (omega arith) refl

beyond : (k : ℕ) → k < 50 → late_point ≢ replica_point weigh host_a k
unfolding weigh replica_point decimal
beyond k h e =
    let other =
      all_below-true 50 (λ j. not (late_point == replica_point weigh host_a j)) k refl h in
    ground (arith, other, e)

remove_leaves_example :
    Returns
      (λ (_, c'). (lookup late_point c'.hosts ≡ some host_a) × (lookup host_a c'.load_map ≡ none))
      (remove weigh (ring_at late_point 0 51) host_a)
unfolding lookup text_beq
remove_leaves_example =
    remove_leaves weigh host_a (ring_at late_point 0 51) late_point late-IsRing refl beyond

performs-IsBalanced_example : IsBalanced (
    performs weigh ring_a
      (call_add host_b ∷ call_inc host_b ∷ call_update host_a (pos 9) ∷ call_done host_a ∷ []))
unfolding ◌+ℤ◌
performs-IsBalanced_example =
    performs-IsBalanced weigh ring_a
      (call_add host_b ∷ call_inc host_b ∷ call_update host_a (pos 9) ∷ call_done host_a ∷ []) refl

remove_unbalances_example :
    Returns
      (λ (_, c'). c'.total_load ≡ wrap64 (pos 3 +ℤ sum_loads c'.load_map))
      (remove weigh ring_a host_a)
unfolding lookup text_beq ◌+ℤ◌
remove_unbalances_example =
    remove_unbalances weigh ring_a host_a (record { name = host_a; load = pos 3 }) ring_a-IsRing
      refl refl

ring_a-IsCovered : IsCovered ring_a
unfolding lookup text_beq
ring_a-IsCovered x h = (point_a, ground (arith, h, (text_beq_iff host_a x).0))

get_least-IsPick_example :
    (bound : ℕ) × (load_bound (pos 4) 1 ≡ ok (pos bound))
    × Returns (IsPick ring_a bound) (get_least weigh ring_a (codes "job"))
get_least-IsPick_example =
    get_least-IsPick weigh ring_a (codes "job") 3 ring_a-IsRing ring_a-IsCovered (omega arith) refl
      (omega arith) (refl, tt) (omega arith)

add_disrupts_little_example : (host_b ≡ host_b) ⊎ (host_b ≡ host_a)
unfolding lookup text_beq insert sort add get search weigh replica_point decimal
add_disrupts_little_example =
    add_disrupts_little weigh ring_a host_b (codes "b0") host_a host_b ring_a-IsRing refl
      host_b-IsFresh refl refl

free_b : (k : ℕ) → k < 50 → lookup (replica_point weigh host_b k) ring_a.hosts ≡ none
unfolding lookup text_beq weigh replica_point decimal
free_b k h =
    let other = all_below-true 50 (λ j. not (point_a == replica_point weigh host_b j)) k refl h in
    ground (arith, other)

-- The ring of both hosts.
abbrev ring_ab : Consistent
ring_ab = add weigh ring_a host_b

ring_ab-IsAdded : IsAdded weigh host_b ring_a ring_ab
unfolding lookup text_beq
ring_ab-IsAdded = add-IsAdded weigh host_b ring_a ring_a-IsRing refl host_b-IsFresh

ring_ab-IsOwn : IsOwn weigh ring_ab host_b
ring_ab-IsOwn k y h owned = elim (ring_ab-IsAdded.grows (replica_point weigh host_b k)) [
  | inl same ↦ absurd (ground (arith, free_b k h, owned, same))
  | inr (_, new) ↦ ground (arith, owned, new)
]

remove_disrupts_little_example : (host_b ≡ host_b) ⊎ (host_b ≡ host_a)
unfolding lookup text_beq insert sort add remove get search weigh replica_point decimal del_slice
    erase
remove_disrupts_little_example =
    remove_disrupts_little weigh ring_ab ring_a host_b (codes "b0") host_b host_a true
      ring_ab-IsAdded.ring (omega arith) ring_ab-IsOwn refl refl refl

remove-add_example :
    Returns (λ (_, c''). SameRing weigh ring_a c'') (remove weigh (add weigh ring_a host_b) host_b)
unfolding lookup text_beq
remove-add_example =
    remove-add weigh ring_a host_b ring_a-IsRing (omega arith) refl host_b-IsFresh free_b

get_least_wip-get_least_example :
    get_least_wip weigh ring_a (codes "job") ≡ get_least weigh ring_a (codes "job")
get_least_wip-get_least_example =
    get_least_wip-get_least weigh ring_a (codes "job") 3 ring_a-IsRing ring_a-IsCovered
      (omega arith) refl (omega arith) (refl, tt) (omega arith)
