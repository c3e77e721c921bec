-- ===== src/Points.antt =====
-- consistenthash/consistenthash.go: the two binary searches over the sorted points of the ring.
pub mod Search
pub mod Delete
use go_dispatch.Base.Outcome.{Outcome, ok, out_of_fuel, ◌>>=◌, or_panic}
use go_dispatch.Base.Shared.{
  ℕ, zero, suc, ◌+◌, ◌-◌, ◌/◌, List, Option, none, some, ltb, leb, ◌==◌, if◌then◌else◌, length,
  get_elem?, remove_nth,
}

pub data Error : Type 0 where
  no_hosts : Error

cut_at : List ℕ → Option ℕ → List ℕ
cut_at points none = points
cut_at points (some idx) = remove_nth idx points

-- The smallest index at which `sorted_set[i] >= key`, as `sort.Search` finds it in [i, j).
search_loop : ℕ → List ℕ → ℕ → ℕ → ℕ → Outcome Error ℕ
search_loop zero points key i j = out_of_fuel
search_loop (suc fuel) points key i j =
    let h = (i + j) / 2 in
    let left = search_loop fuel points key i h in
    let right = search_loop fuel points key (h + 1) j in
    let probe = or_panic (get_elem? points h) >>= λ p. if leb key p then left else right in
    if ltb i j then probe else ok i

unfoldable pub search : List ℕ → ℕ → Outcome Error ℕ
unfolding search_loop
search points key = do
  idx ← search_loop (length points + 1) points key 0 (length points)
  ok (if leb (length points) idx then 0 else idx)

-- The binary search of `delSlice`. `r` is the source's `r + 1`, so that it does not pass below 0.
find_point : ℕ → List ℕ → ℕ → ℕ → ℕ → Outcome Error (Option ℕ)
find_point zero points val l r = out_of_fuel
find_point (suc fuel) points val l r =
    let m = (l + r - 1) / 2 in
    let above = find_point fuel points val (m + 1) r in
    let below = find_point fuel points val l m in
    let probe = or_panic (get_elem? points m) >>= λ p.
    if p == val then ok (some m) else if ltb p val then above else below in
    if ltb l r then probe else ok none

unfoldable pub del_slice : List ℕ → ℕ → Outcome Error (List ℕ)
unfolding find_point cut_at
del_slice points val = do
  found ← find_point (length points + 1) points val 0 (length points)
  ok (cut_at points found)
