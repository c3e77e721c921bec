-- ===== src/Ring/Owner.antt =====
-- `get` against the definition of consistent hashing: the owner of the first point clockwise.
use go_dispatch.Base.Keys.{Text, text_eq, nat_eq}
use go_dispatch.Base.Maps.{Map, lookup}
use go_dispatch.Base.Outcome.{Returns, Returns-inv}
use go_dispatch.Base.Sorting.{ !-mono}
use go_dispatch.Base.Shared.{
  ℕ, ◌≤◌, ◌<◌, ◌≡◌, ◌⊎◌, inl, inr, true, false, some, arith, is_some, length, ◌==◌, ◌!◌,
  get_elem?-!, count-pos, count_index, Option-cases,
}
use go_dispatch.Points.Search.{IsSuccessor, search-IsSuccessor}
use go_dispatch.Ring.{Consistent, get}
use go_dispatch.Ring.Invariant.{IsRing}

-- Going clockwise from the key's hash `h`, the point `p` comes no later than the point `q`.
abbrev pub IsNoLater : ℕ → ℕ → ℕ → Type 0
IsNoLater h p q = ((h ≤ p) × ((q < h) ⊎ (p ≤ q))) ⊎ ((p < h) × (q < h) × (p ≤ q))

-- `x` owns the first point clockwise from `h`.
abbrev pub IsOwner : Map ℕ Text → ℕ → Text → Type 0
IsOwner m h x =
    (p : ℕ) × (lookup p m ≡ some x) × ((q : ℕ) → is_some (lookup q m) ≡ true → IsNoLater h p q)

module _ (sum64 : Text → ℕ) (c : Consistent) (ring : IsRing sum64 c) where
  pub point_at :
      (idx : ℕ)
      → idx < length c.sorted_set
      → (x : Text) × (lookup (c.sorted_set ! idx) c.hosts ≡ some x)
  point_at idx h = elim (Option-cases (lookup (c.sorted_set ! idx) c.hosts)) [
    | inl e ↦ absurd (
        ground (arith, count-pos c.sorted_set idx h, ring.spread.index.counts (c.sorted_set ! idx)))
    | inr found ↦ found
  ]

  successor_first :
      (h idx q : ℕ)
      → IsSuccessor c.sorted_set h ring.sorted idx
      → is_some (lookup q c.hosts) ≡ true
      → IsNoLater h (c.sorted_set ! idx) q
  successor_first h idx q (inside, below, here) there =
      let (j, p, e) = count_index q c.sorted_set (ground (arith, ring.spread.index.counts q)) in
      elim here [
        | inl at ↦ ground (arith, below j, !-mono c.sorted_set idx j ring.sorted)
        | inr (start, low) ↦ ground (arith, low j, low idx, !-mono c.sorted_set idx j ring.sorted)
      ]

  -- On a well-formed ring that has a host, `get` returns the host that owns the first point
  -- clockwise from the hash of the key.
  pub get-IsOwner :
      (key : Text) → 0 < length c.hosts → Returns (IsOwner c.hosts (sum64 key)) (get sum64 c key)
  unfolding get
  get-IsOwner key h =
      let (idx, e, s) = Returns-inv (IsSuccessor c.sorted_set (sum64 key) ring.sorted) _ (
        search-IsSuccessor c.sorted_set (sum64 key) ring.sorted
          (ground (arith, ring.spread.index.size))) in
      let (x, owns) = point_at idx s.0 in
      rw (nonempty (length c.hosts) h, e, get_elem?-! c.sorted_set idx s.0, owns)
        (c.sorted_set ! idx, owns, λ q. successor_first (sum64 key) idx q s)
    where
      nonempty : (n : ℕ) → 0 < n → (n == 0) ≡ false
      nonempty n p = ground arith
