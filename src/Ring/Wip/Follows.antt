-- ===== src/Ring/Wip/Follows.antt =====
-- GetLeastv2wip answers as GetLeast does where a host has room.
use go_dispatch.Points.Search.{search-IsSuccessor, IsSuccessor}
use go_dispatch.Base.Submaps.{IsSubmap, length-IsSubmap_lt}
use go_dispatch.Ring.Owner.{point_at}
use go_dispatch.Base.Maps.{lookup-insert, insert-IsMap, IsMap, insert, Map, lookup}
use go_dispatch.Ring.Wip.{load_of, least_wip_loop, get_least_wip}
use go_dispatch.Base.Int.{ltb_ℤ, ℤ, ◌+ℤ◌, wrap64, pos}
use go_dispatch.Ring.Least.{
  settled_total, raised, nonempty, load_ok-within, IsPick, HasRoom-within, host_at-ok,
  get_least_picks, HasRoom, load_sum, HasNoDebt, IsCovered,
}
use go_dispatch.Ring.Invariant.{IsRing}
use go_dispatch.Ring.{within, get_least_loop, get_least, clamp, load_bound, Consistent}
use go_dispatch.Base.Outcome.{Returns-inv, ok}
use go_dispatch.Base.Keys.{text_beq_iff, text_beq, Text, text_eq, nat_eq}
use go_dispatch.Points.{search}
use go_dispatch.Base.Shared.{
  leb, ◌==◌, if◌then◌else◌, Bool-cases, Option-cases, is_some, length, ◌!◌, ℕ, zero, suc, ◌+◌, ◌-◌,
  ◌^◌, ◌≤◌, ◌<◌, ◌≡◌, refl, sym, ap, ◌∙◌, ◌⊎◌, inl, inr, true, false, some, [], arith,
}

module _ (sum64 : Text → ℕ) (c : Consistent) (ring : IsRing sum64 c) (bound : ℕ)
    (bounded : load_bound (wrap64 (c.total_load +ℤ pos 1)) (length c.load_map) ≡ ok (pos bound))
    (settled : clamp c ≡ c) where
  -- The hosts considered are listed, and none of them has room.
  record AreFull (considered : Map Text (Unit {0})) : Type 0 where
    is_map : IsMap considered
    listed : IsSubmap considered c.load_map
    full :
        (y : Text) → is_some (lookup y considered) ≡ true → within c.load_map y (pos bound) ≡ false

  nothing_considered : AreFull []
  unfolding lookup
  nothing_considered = record { is_map = tt; listed = λ k e. absurd cc; full = λ k e. absurd cc }

  lookup_inserted :
      (considered : Map Text (Unit {0})) (y k : Text)
      → is_some (lookup k (insert y tt considered)) ≡ true
      → (y ≡ k) ⊎ (is_some (lookup k considered) ≡ true)
  lookup_inserted considered y k e = elim (Bool-cases (text_beq y k)) [
    | inl same ↦ inl ((text_beq_iff y k).0 same)
    | inr other ↦
        let found =
          lookup-insert y k tt considered
          ∙ ap (λ b. if b then some tt else lookup k considered) other in
        inr (ap is_some (sym found) ∙ e)
  ]

  insert-AreFull :
      (considered : Map Text (Unit {0})) (y : Text)
      → AreFull considered
      → is_some (lookup y c.load_map) ≡ true
      → within c.load_map y (pos bound) ≡ false
      → AreFull (insert y tt considered)
  insert-AreFull considered y h there busy = record {
    is_map = insert-IsMap y tt considered h.is_map;
    listed = λ k e. elim (lookup_inserted considered y k e) [
      | inl same ↦ rw (← same) there
      | inr before ↦ h.listed k before
    ];
    full = λ k e. elim (lookup_inserted considered y k e) [
      | inl same ↦ rw (← same) busy
      | inr before ↦ h.full k before
    ];
  }

  not_considered :
      (considered : Map Text (Unit {0})) (x : Text)
      → AreFull considered
      → within c.load_map x (pos bound) ≡ true
      → is_some (lookup x considered) ≡ false
  not_considered considered x h room = elim (Bool-cases (is_some (lookup x considered))) [
    | inr absent ↦ absent
    | inl seen ↦ let busy = h.full x seen in absurd cc
  ]

  -- A host with room is left, so that the loop goes on.
  goes_on :
      (considered : Map Text (Unit {0})) (x : Text)
      → AreFull considered
      → HasRoom c bound x
      → (length considered == length c.load_map) ≡ false
  goes_on considered x h room =
      let (host, there, _) = room in
      let apart =
        not_considered considered x h (HasRoom-within sum64 c ring bound bounded settled x room) in
      let fewer =
        length-IsSubmap_lt considered c.load_map x h.is_map ring.spread.loads_map h.listed
          (elim (Option-cases (lookup x considered)) [ inl e ↦ e | inr (_, e) ↦ absurd cc ])
          (ap is_some there) in
      ground arith

  get_least_loop_step :
      (fuel i : ℕ) (y : Text)
      → i < length c.sorted_set
      → lookup (c.sorted_set ! i) c.hosts ≡ some y
      → get_least_loop (suc fuel) c i ≡ (
          let rest = get_least_loop fuel c (if leb (length c.hosts) (i + 1) then 0 else i + 1) in
          if within c.load_map y (pos bound) then ok (y, c) else rest)
  unfolding get_least_loop
  get_least_loop_step fuel i y below owned =
      rw
        (
          host_at-ok sum64 c ring bound bounded settled i y below owned,
          load_ok-within sum64 c ring bound bounded settled y,
        )
        refl

  least_wip_loop_step :
      (fuel i j : ℕ) (considered : Map Text (Unit {0})) (leader : Text) (least : ℤ) (y : Text)
      → i < length c.sorted_set
      → lookup (c.sorted_set ! i) c.hosts ≡ some y
      → (if leb (length c.sorted_set) j then 0 else j) ≡ i
      → (length considered == length c.load_map) ≡ false
      → least_wip_loop (suc fuel) c j considered leader least ≡ (
          let skipped = least_wip_loop fuel c (i + 1) considered leader least in
          let load = load_of c y in
          let leads = ltb_ℤ load least in
          let rest =
            least_wip_loop fuel c
              (i + 1)
              (insert y tt considered)
              (if leads then y else leader)
              (if leads then load else least) in
          if is_some (lookup y considered)
          then skipped
          else if within c.load_map y (pos bound)
          then ok (y, c)
          else rest)
  unfolding least_wip_loop
  least_wip_loop_step fuel i j considered leader least y below owned at more =
      rw
        (
          more,
          at,
          host_at-ok sum64 c ring bound bounded settled i y below owned,
          load_ok-within sum64 c ring bound bounded settled y,
        )
        refl

  -- As long as it has met no host with room, the loop goes where that of GetLeast goes.
  least_wip_loop_follows :
      (fuel i j : ℕ) (considered : Map Text (Unit {0})) (leader : Text) (least : ℤ) (x : Text)
      (c' : Consistent)
      → AreFull considered
      → HasRoom c bound x
      → i < length c.sorted_set
      → (if leb (length c.sorted_set) j then 0 else j) ≡ i
      → get_least_loop fuel c i ≡ ok (x, c')
      → least_wip_loop (suc fuel) c j considered leader least ≡ ok (x, c')
  unfolding get_least_loop
  least_wip_loop_follows zero i j considered leader least x c' h room below at got = absurd cc
  least_wip_loop_follows (suc fuel) i j considered leader least x c' h room below at got =
      let (y, owned) = point_at sum64 c ring i below in
      let step = get_least_loop_step fuel i y below owned in
      let there = ring.spread.listed (c.sorted_set ! i) y owned in
      let next = if leb (length c.hosts) (i + 1) then 0 else i + 1 in
      let next_below : next < length c.sorted_set = ground (arith, ring.spread.index.size, below) in
      let next_at : (if leb (length c.sorted_set) (i + 1) then 0 else i + 1) ≡ next =
        rw ring.spread.index.size refl in
      rw
        (least_wip_loop_step (suc fuel) i j considered leader least y below owned at
          (goes_on considered x h room))
        (elim (Bool-cases (within c.load_map y (pos bound))) [
          | inl fine ↦
              rw (not_considered considered y h fine, fine)
                (ap (λ b. if b then ok (y, c) else get_least_loop fuel c next) (sym fine)
                  ∙ sym step
                  ∙ got)
          | inr full ↦
              let on : get_least_loop fuel c next ≡ ok (x, c') =
                ap (λ b. if b then ok (y, c) else get_least_loop fuel c next) (sym full)
                ∙ sym step
                ∙ got in
              elim (Bool-cases (is_some (lookup y considered))) [
                | inl seen ↦ rw seen (
                    least_wip_loop_follows fuel next (i + 1) considered leader least x c' h room
                      next_below next_at on)
                | inr new ↦
                    rw (new, full)
                      (least_wip_loop_follows fuel next (i + 1) _ _ _ x c'
                        (insert-AreFull considered y h there full) room next_below next_at on)
              ]
        ])

module _ (sum64 : Text → ℕ) (c : Consistent) (key : Text) (total : ℕ) (ring : IsRing sum64 c)
    (covered : IsCovered c) (some_host : 0 < length c.hosts) (counted : c.total_load ≡ pos total)
    (small : total + 1 < 2 ^ 63) (no_debt : HasNoDebt c.load_map)
    (summed : load_sum c.load_map ≤ total) where
  -- On a well-formed ring that has a host, with a total load from 0 to less than 2^63 - 1, where
  -- every listed host has a point, no load is below 0 and the loads sum up to at most the total:
  -- GetLeastv2wip ends with the answer of GetLeast, and like that changes nothing.
  pub get_least_wip-get_least : get_least_wip sum64 c key ≡ get_least sum64 c key
  unfolding get_least_wip get_least
  get_least_wip-get_least =
      let (bound, bounded, returned) =
        get_least_picks sum64 c key total ring covered some_host counted small no_debt summed in
      let ((x, c'), e, (room, same)) = Returns-inv (IsPick c bound) _ returned in
      let (idx, found, s) = Returns-inv (IsSuccessor c.sorted_set (sum64 key) ring.sorted) _ (
        search-IsSuccessor c.sorted_set (sum64 key) ring.sorted
          (omega (arith, ring.spread.index.size))) in
      let some_round : (length c.hosts == 0) ≡ false = nonempty (length c.hosts) some_host in
      let run : get_least_loop (length c.sorted_set) c idx ≡ ok (x, c') =
        rounds idx some_round found ∙ e in
      let follows : least_wip_loop (suc (length c.sorted_set)) c idx [] [] (pos (2 ^ 63 - 1))
          ≡ ok (x, c') =
        least_wip_loop_follows sum64 c ring bound
          (rw (raised sum64 c key total ring covered some_host counted small no_debt summed)
            bounded)
          (settled_total sum64 c key total ring covered some_host counted small no_debt summed)
          (length c.sorted_set) idx idx [] [] (pos (2 ^ 63 - 1)) x c'
          (nothing_considered sum64 c ring bound
            (rw (raised sum64 c key total ring covered some_host counted small no_debt summed)
              bounded)
            (settled_total sum64 c key total ring covered some_host counted small no_debt summed))
          room s.0 (ground (arith, s.0)) run in
      rw (some_round, found) (follows ∙ sym run)
    where
      rounds :
          (idx : ℕ)
          → (length c.hosts == 0) ≡ false
          → search c.sorted_set (sum64 key) ≡ ok idx
          → get_least_loop (length c.sorted_set) c idx ≡ get_least sum64 c key
      rounds idx some_round found = rw (some_round, found) refl
