-- ===== src/Points/Search.antt =====
-- `search`: the point that a key falls to.
use go_dispatch.Base.Outcome.{Returns, Returns-inv}
use go_dispatch.Base.Sorting.{IsSorted, !-mono}
use go_dispatch.Base.Shared.{
  ℕ, zero, suc, ◌+◌, ◌-◌, ◌/◌, ◌≤◌, ◌<◌, ◌≡◌, refl, List, arith, ltb, leb, length, ◌!◌, get_elem?-!,
  Bool-cases, inl, inr, ◌⊎◌,
}
use go_dispatch.Points.{search_loop, search}

-- Every point before `k` lies below the key, and no point from `k` on does.
abbrev pub IsBoundary : List ℕ → ℕ → ℕ → Type 0
IsBoundary points key k =
    (k ≤ length points)
    × ((i : ℕ) → i < k → points ! i < key)
    × ((i : ℕ) → k ≤ i → i < length points → key ≤ points ! i)

module _ (points : List ℕ) (key : ℕ) (sorted : IsSorted points) where
  search_loop-IsBoundary :
      (fuel i j : ℕ)
      → i ≤ j
      → j ≤ length points
      → j - i < fuel
      → ((a : ℕ) → a < i → points ! a < key)
      → ((a : ℕ) → j ≤ a → a < length points → key ≤ points ! a)
      → Returns (IsBoundary points key) (search_loop fuel points key i j)
  unfolding search_loop
  search_loop-IsBoundary zero i j p q f lo hi = absurd (omega arith)
  search_loop-IsBoundary (suc fuel) i j p q f lo hi = elim (Bool-cases (ltb i j)) [
    | inr e ↦ rw e (omega arith, lo, λ a r s. hi a (ground arith) s)
    | inl e ↦
        let open_range : i < j = ground arith in
        rw (e, get_elem?-! points ((i + j) / 2) (omega arith))
          (elim (Bool-cases (leb key (points ! ((i + j) / 2)))) [
            | inl le ↦ rw le (
                search_loop-IsBoundary fuel i ((i + j) / 2) (omega arith) (omega arith)
                  (omega arith) lo λ a r s. ground (arith, !-mono points ((i + j) / 2) a sorted))
            | inr gt ↦ rw gt (
                search_loop-IsBoundary fuel ((i + j) / 2 + 1) j (omega arith) q (omega arith)
                  (λ a r. ground (arith, !-mono points a ((i + j) / 2) sorted)) hi)
          ])
  ]

  -- The index is that of the first point at or after the key, or 0 where there is none.
  abbrev pub IsSuccessor : ℕ → Type 0
  IsSuccessor idx =
      (idx < length points)
      × ((i : ℕ) → i < idx → points ! i < key)
      × ((key ≤ points ! idx) ⊎ ((idx ≡ 0) × ((i : ℕ) → i < length points → points ! i < key)))

  -- On sorted points, of which there is one at least, the search ends without a panic on the index of
  -- the first point at or after the key, and on 0 where all points lie before the key.
  pub search-IsSuccessor : 0 < length points → Returns IsSuccessor (search points key)
  unfolding search
  search-IsSuccessor h =
      let (k, e, (inside, below, above)) = Returns-inv (IsBoundary points key) _ (
        search_loop-IsBoundary (length points + 1) 0 (length points) (omega arith) (omega arith)
          (omega arith) (λ a r. absurd (omega arith)) (λ a r s. absurd (omega arith))) in
      rw e (elim (Bool-cases (leb (length points) k)) [
        | inl past ↦
            rw past (h, (λ i r. absurd (omega arith)), inr (refl, λ i r. below i (ground arith)))
        | inr found ↦ rw found (ground arith, below, inl (above k (omega arith) (ground arith)))
      ])
