-- ===== src/Tests/Counting.antt =====
-- The theorem on a pool that counts loads, at a ring with one host.
use mathlib.Core.Path.{subst}
use go_dispatch.Base.Keys.{text_eq, nat_eq}
use go_dispatch.Base.Int.{pos, pos_part}
use go_dispatch.Ring.Least.{IsCovered}
use go_dispatch.Tests.{ring_a-IsRing, point_a, ring_a, weigh, host_a}
use go_dispatch.NodePool.Counting.{asks-IsCounting, asks, IsCounting}
use go_dispatch.Base.Keys.{text_beq_iff, codes, text_beq, Text}
use go_dispatch.Tests.Pools.{pool_of}
use go_dispatch.Ring.{Host, Consistent, load_bound}
use go_dispatch.Base.Outcome.{Returns}
use go_dispatch.Base.Maps.{lookup}
use go_dispatch.NodePool.{NodePool, steady}
use go_dispatch.Base.Shared.{Bool-cases, ◌≤◌, ◌≡◌, refl, inl, inr, true, some, [], ◌∷◌, arith}

abbrev counting_pool : NodePool
counting_pool = record (pool_of host_a (host_a ∷ []) steady) { capacity_load = true }

ring_a-IsCovered : IsCovered ring_a
unfolding lookup text_beq
ring_a-IsCovered x h = (point_a, ground (arith, h, (text_beq_iff host_a x).0))

ring_a-below : (x : Text) (h : Host) → lookup x ring_a.load_map ≡ some h → pos_part h.load ≤ 4
unfolding lookup
ring_a-below x h e = elim (Bool-cases (text_beq host_a x)) [
  | inl same ↦
      let mine : record { name = host_a; load = pos 3 } ≡ h = cc in
      subst (λ (z : Host). pos_part z.load ≤ 4) mine (omega arith)
  | inr other ↦ ground (arith, other, e)
]

counting_pool-IsCounting : IsCounting weigh counting_pool ring_a 3
unfolding load_bound
counting_pool-IsCounting = record {
  ring = refl;
  is_steady = refl;
  counts = refl;
  loaded = record {
    ring = ring_a-IsRing;
    covered = ring_a-IsCovered;
    some_host = omega arith;
    counted = refl;
    no_debt = (refl, tt);
    summed = omega arith;
    capped = record { bound = 4; bounded = refl; below = ring_a-below };
  };
}

asks-IsCounting_example :
    Returns
      (λ np'. (c' : Consistent) × IsCounting weigh np' c' 5)
      (asks weigh (codes "one" ∷ codes "two" ∷ []) counting_pool)
asks-IsCounting_example =
    asks-IsCounting weigh (codes "one" ∷ codes "two" ∷ []) counting_pool ring_a 3
      counting_pool-IsCounting (omega arith)
