-- ===== src/NodePool/Counting.antt =====
-- nodepool/nodepool.go: IsEligible in the mode that counts loads.
use go_dispatch.Ring.Bounded.{get_least-inc-IsLoaded, IsLoaded}
use go_dispatch.Ring.{get_least, inc, is_empty, Consistent}
use go_dispatch.Base.Keys.{text_beq, Text}
use go_dispatch.NodePool.{
  on_ring, when_steady, lift, PoolError, get_host, is_eligible, NodePool, steady,
}
use go_dispatch.Base.Outcome.{ok, Returns, Outcome, ◌>>=◌}
use mathlib.Core.Path.{subst}
use go_dispatch.Base.Shared.{
  length, ℕ, suc, ◌+◌, ◌^◌, ◌<◌, ◌≡◌, refl, true, some, List, [], ◌∷◌, arith,
}

-- A steady pool that counts loads, over the ring `c`.
pub record IsCounting (sum64 : Text → ℕ) (np : NodePool) (c : Consistent) (total : ℕ) : Type 0 where
  pub ring : np.nodes ≡ some c
  pub is_steady : np.state ≡ some steady
  pub counts : np.capacity_load ≡ true
  pub loaded : IsLoaded sum64 c total

module _ (sum64 : Text → ℕ) where
  -- IsEligible is called for each key, one after the other.
  abbrev pub asks : List Text → NodePool → Outcome PoolError NodePool
  asks [] np = ok np
  asks (key ∷ keys) np = is_eligible sum64 np key >>= λ (_, np'). asks keys np'

  counted_answer :
      (np : NodePool) (c : Consistent) (key x : Text)
      → np.nodes ≡ some c
      → np.state ≡ some steady
      → np.capacity_load ≡ true
      → 0 < length c.hosts
      → get_least sum64 c key ≡ ok (x, c)
      → is_eligible sum64 np key ≡ ok (text_beq np.node_id x, record np { nodes = some (inc c x) })
  unfolding is_eligible get_host is_empty lift when_steady on_ring
  counted_answer np c key x ring is_steady counts some_host found =
      ground (arith, ring, is_steady, counts, some_host, found)

  -- On a steady pool that counts loads, over a well-formed ring that has a host and whose loads are
  -- within the bound, where every listed host has a point, no load is below 0 and the loads sum up
  -- to at most the total: whatever keys IsEligible is asked for, one after the other, as long as
  -- the total stays below 2^50, where the floats of the source are exact, no call fails, and then no host has more load than the bound for
  -- the new total allows: 1.25 times the whole part of the average, one at least, rounded up.
  pub asks-IsCounting :
      (keys : List Text) (np : NodePool) (c : Consistent) (total : ℕ)
      → IsCounting sum64 np c total
      → total + length keys < 2 ^ 50
      → Returns
          (λ np'. (c' : Consistent) × IsCounting sum64 np' c' (total + length keys))
          (asks keys np)
  asks-IsCounting [] np c total h small =
      subst (λ n. (c' : Consistent) × IsCounting sum64 np c' n) (omega arith) (c, h)
  asks-IsCounting (key ∷ keys) np c total h small =
      let (x, found, loaded) =
        get_least-inc-IsLoaded sum64 c total key h.loaded (omega (arith, small)) in
      let np' : NodePool = record np { nodes = some (inc c x) } in
      let next : IsCounting sum64 np' (inc c x) (total + 1) = record {
        ring = refl;
        is_steady = h.is_steady;
        counts = h.counts;
        loaded = loaded;
      } in
      let same : (total + 1) + length keys ≡ total + suc (length keys) = omega arith in
      rw (counted_answer np c key x h.ring h.is_steady h.counts h.loaded.some_host found) (
        subst
          (λ n. Returns (λ np''. (c' : Consistent) × IsCounting sum64 np'' c' n) (asks keys np'))
          same (asks-IsCounting keys np' (inc c x) (total + 1) next (omega (arith, small))))
