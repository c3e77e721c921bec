-- ===== src/Points/Delete.antt =====
-- `del_slice`: one occurrence of the value leaves the slice, and nothing else does.
use go_dispatch.Base.Outcome.{Returns, Returns-inv}
use go_dispatch.Base.Sorting.{IsSorted, !-mono, remove_nth-IsSorted}
use go_dispatch.Base.Shared.{
  ℕ, zero, suc, ◌+◌, ◌-◌, ◌/◌, ◌≤◌, ◌<◌, ◌≡◌, ◌≢◌, List, Option, none, some, arith, ltb, ◌==◌,
  if◌then◌else◌, length, ◌!◌, get_elem?-!, count, Bool-cases, inl, inr, count-zero,
  count-remove_nth, length-remove_nth,
}
use go_dispatch.Points.{cut_at, find_point, del_slice}

module _ (points : List ℕ) (val : ℕ) (sorted : IsSorted points) where
  -- What the search answers: an index of the value, or that no point is the value.
  abbrev IsFound : Option ℕ → Type 0
  IsFound (some idx) = (idx < length points) × (points ! idx ≡ val)
  IsFound none = (i : ℕ) → i < length points → points ! i ≢ val

  find_point-IsFound :
      (fuel l r : ℕ)
      → r ≤ length points
      → r - l < fuel
      → ((a : ℕ) → a < l → a < length points → points ! a < val)
      → ((a : ℕ) → r ≤ a → a < length points → val < points ! a)
      → Returns IsFound (find_point fuel points val l r)
  unfolding find_point
  find_point-IsFound zero l r q f lo hi = absurd (omega arith)
  find_point-IsFound (suc fuel) l r q f lo hi = elim (Bool-cases (ltb l r)) [
    | inr e ↦ rw e (λ i b same. ground (arith, lo i, hi i))
    | inl e ↦
        let open_range : l < r = ground arith in
        let m = (l + r - 1) / 2 in
        rw (e, get_elem?-! points ((l + r - 1) / 2) (omega arith))
          (elim (Bool-cases (points ! ((l + r - 1) / 2) == val)) [
            | inl hit ↦ rw hit (omega arith, ground arith)
            | inr miss ↦ rw miss (elim (Bool-cases (ltb (points ! ((l + r - 1) / 2)) val)) [
              | inl lt ↦ rw lt (
                  find_point-IsFound fuel ((l + r - 1) / 2 + 1) r q (omega arith)
                    (λ a p b. ground (arith, !-mono points a ((l + r - 1) / 2) sorted)) hi)
              | inr ge ↦ rw ge (
                  find_point-IsFound fuel l ((l + r - 1) / 2) (omega arith) (omega arith) lo
                    λ a p b. ground (arith, !-mono points ((l + r - 1) / 2) a sorted))
            ])
          ])
  ]

  -- How many occurrences of the value are taken out.
  abbrev pub taken : ℕ
  taken = if ltb 0 (count val points) then 1 else 0

  -- `out` is the slice less one occurrence of the value, still in order.
  pub record IsCut (out : List ℕ) : Type 0 where
    pub still_sorted : IsSorted out
    pub counts : (a : ℕ) → count a points ≡ count a out + (if a == val then taken else 0)
    pub size : length points ≡ length out + taken

  cut_at-IsCut : (found : Option ℕ) → IsFound found → IsCut (cut_at points found)
  unfolding cut_at
  cut_at-IsCut none h =
      let absent = count-zero val points h in
      record { still_sorted = sorted; counts = λ a. ground arith; size = ground arith }
  cut_at-IsCut (some idx) h = record {
    still_sorted = remove_nth-IsSorted idx points sorted;
    counts =
        λ a. ground (arith, count-remove_nth a idx points h.0, count-remove_nth val idx points h.0);
    size = ground (arith, length-remove_nth idx points h.0, count-remove_nth val idx points h.0);
  }

  -- On a sorted slice the search ends without a panic, and takes out one occurrence of the value
  -- if there is one and nothing else; the slice stays sorted.
  pub del_slice-IsCut : Returns IsCut (del_slice points val)
  unfolding del_slice
  del_slice-IsCut =
      let (found, e, h) = Returns-inv IsFound _ (
        find_point-IsFound (length points + 1) 0 (length points) (omega arith) (omega arith)
          (λ a p b. absurd (omega arith)) (λ a p b. absurd (omega arith))) in
      rw e (cut_at-IsCut found h)
