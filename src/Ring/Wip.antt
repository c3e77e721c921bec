-- ===== src/Ring/Wip.antt =====
-- consistenthash/consistenthash.go: GetLeastv2wip, the other way to find a host for a load.
pub mod Follows
use go_dispatch.Points.Search.{search-IsSuccessor, IsSuccessor}
use go_dispatch.Ring.Owner.{point_at}
use go_dispatch.Ring.Least.{
  settled_total, raised, nonempty, IsPick, get_least_picks, load_sum, HasNoDebt, IsCovered,
  load_ok-within, host_at-ok, HasRoom-within, HasRoom,
}
use go_dispatch.Ring.Invariant.{IsRing}
use go_dispatch.Base.Int.{◌+ℤ◌, wrap64, ltb_ℤ, pos, ℤ}
use go_dispatch.Base.Maps.{
  lookup-insert, insert-IsMap, lookup-erase, insert, length-erase, erase-IsMap, erase, IsMap,
  lookup, Map,
}
use go_dispatch.Ring.{
  get_least, get_least_loop, within, clamp, load_bound, load_ok, Consistent, host_at,
}
use go_dispatch.Base.Outcome.{Returns-inv, ok, err, out_of_fuel, Outcome, ◌>>=◌}
use go_dispatch.Base.Keys.{text_beq_iff, text_beq, text_beq_refl, Text, text_eq, nat_eq}
use go_dispatch.Points.{no_hosts, Error, search}
use go_dispatch.Base.Shared.{
  ltb, leb, ◌==◌, if◌then◌else◌, ==_iff, Bool-cases, Option-cases, is_some, All-mono, All-set,
  All-get_elem?, length-set, length, get_elem?, set, take, drop, remove_nth, All, length-append,
  All-append, get_elem?-lt, length-remove_nth, All-remove_nth, ◌!◌, get_elem?-!, count,
  count-append, count-remove_nth, count_index, count-pos, count-zero, count_by, count_by-append,
  count_by-set, count_by-find, ℕ, zero, suc, ◌+◌, ◌-◌, ◌*◌, ◌/◌, ◌%◌, ◌^◌, ◌≤◌, ◌<◌, ◌≡◌, refl, sym,
  ap, ◌∙◌, ◌≢◌, ◌↔◌, ◌⊎◌, inl, inr, Bool, true, false, not, ◌&&◌, ◌||◌, Option, none, some, List,
  [], ◌∷◌, ◌++◌, map, arith,
}

-- `hostInfo.Load`, 0 for a host without an entry.
abbrev pub load_of : Consistent → Text → ℤ
load_of c host = elim (lookup host c.load_map) [ none ↦ pos 0 | some h ↦ h.load ]

-- The loop: the index, the hosts considered, and the least loaded of them with its load. It has no
-- bound in the source.
unfoldable pub least_wip_loop :
    ℕ → Consistent → ℕ → Map Text (Unit {0}) → Text → ℤ → Outcome Error (Text × Consistent)
unfolding host_at
least_wip_loop zero c idx considered leader least = out_of_fuel
least_wip_loop (suc fuel) c idx considered leader least =
    let i = if leb (length c.sorted_set) idx then 0 else idx in
    let round : Outcome Error (Text × Consistent) = do
      host ← host_at c i
      let skipped = least_wip_loop fuel c (i + 1) considered leader least
      let load = load_of c host
      let leads = ltb_ℤ load least
      let tried : Outcome Error (Text × Consistent) = do
        (fine, c') ← load_ok c host
        let rest =
            least_wip_loop fuel c' (i + 1) (insert host tt considered)
              (if leads then host else leader) (if leads then load else least)
        if fine then ok (host, c') else rest
      if is_some (lookup host considered) then skipped else tried
    in if length considered == length c.load_map then ok (leader, c) else round

module _ (sum64 : Text → ℕ) where
  -- `GetLeastv2wip`, with fuel for a turn of the ring and the round after it.
  unfoldable pub get_least_wip : Consistent → Text → Outcome Error (Text × Consistent)
  unfolding least_wip_loop
  get_least_wip c key =
      let found : Outcome Error (Text × Consistent) = do
        idx ← search c.sorted_set (sum64 key)
        least_wip_loop (suc (length c.sorted_set)) c idx [] [] (pos (2 ^ 63 - 1))
      in if length c.hosts == 0 then err no_hosts else found
