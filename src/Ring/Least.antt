-- ===== src/Ring/Least.antt =====
-- `get_least`: with balanced loads it ends, within one turn of the ring, on a host with room.
use go_dispatch.Base.Outcome.{ok, Returns, Returns-inv}
use go_dispatch.Base.Keys.{Text, text_eq, nat_eq, text_beq, text_beq_iff, text_beq_refl}
use go_dispatch.Base.Maps.{Map, lookup, IsMap}
use go_dispatch.Base.Int.{ℤ, pos, pos_part, neg_part, ◌+ℤ◌, wrap64}
use go_dispatch.Points.Search.{IsSuccessor, search-IsSuccessor}
use go_dispatch.Ring.{
  Consistent, Host, clamp, fits, within, load_ok, load_bound, host_at, get_least_loop, get_least,
  ceil_scaled, one_at_least,
}
use go_dispatch.Ring.Invariant.{IsRing}
use go_dispatch.Ring.Owner.{point_at}
use go_dispatch.Base.Shared.{
  ltb, leb, ◌==◌, if◌then◌else◌, Bool-cases, Option-cases, is_some, length, All, ◌!◌, get_elem?-!,
  count_index, ℕ, zero, suc, ◌+◌, ◌-◌, ◌*◌, ◌/◌, ◌^◌, ◌≤◌, ◌<◌, ◌≡◌, refl, sym, ap, ◌∙◌, inl, inr,
  true, false, none, some, [], ◌∷◌, arith,
}

-- The loads as numbers, for hosts that were not marked done too often.
abbrev pub load_sum : Map Text Host → ℕ
load_sum [] = 0
load_sum ((x, h) ∷ m) = pos_part h.load + load_sum m

abbrev pub HasNoDebt : Map Text Host → Type 0
HasNoDebt m = All (λ (entry : Text × Host). neg_part entry.1.load ≡ 0) m

-- A host with a load below `limit`.
abbrev IsLight : Map Text Host → ℕ → Text → Type 0
IsLight m limit x =
    (h : Host) × (lookup x m ≡ some h) × (pos_part h.load < limit) × (neg_part h.load ≡ 0)

IsLight-host :
    (m : Map Text Host) (limit : ℕ)
    → IsMap m
    → HasNoDebt m
    → load_sum m < length m * limit
    → (x : Text) × IsLight m limit x
unfolding lookup
IsLight-host [] limit d n low = absurd (omega arith)
IsLight-host ((x, h) ∷ m) limit d n low = elim (Bool-cases (ltb (pos_part h.load) limit)) [
  | inl light ↦ (x, (h, ground (arith, text_beq_refl x), ground arith, n.0))
  | inr heavy ↦
      let (y, (k, e, lt, nn)) = IsLight-host m limit d.1 n.1 (grind arith) in
      (y, (k, deeper y k e, lt, nn))
]
  where
    deeper : (y : Text) (k : Host) → lookup y m ≡ some k → lookup y ((x, h) ∷ m) ≡ some k
    deeper y k e = elim (Bool-cases (text_beq x y)) [
      | inr other ↦ rw other e
      | inl same ↦
          let alone : lookup y m ≡ none =
            ap (λ z. lookup z m) (sym ((text_beq_iff x y).0 same)) ∙ d.0 in
          cc
    ]

scaled_room :
    (q : ℕ) → (bound : ℕ) × (ceil_scaled (one_at_least (pos q)) ≡ pos bound) × (q + 1 ≤ bound)
scaled_room zero = (2, refl, omega arith)
scaled_room (suc q) = ((5 * suc q + 3) / 4, refl, omega arith)

-- The bound leaves room for a host with at most the average load.
load_bound_room :
    (total n : ℕ)
    → 0 < n
    → (bound : ℕ) × (load_bound (pos total) n ≡ ok (pos bound)) × (total / n + 1 ≤ bound)
unfolding load_bound
load_bound_room total zero p = absurd (omega arith)
load_bound_room total (suc n) p =
    let (bound, e, room) = scaled_room (total / suc n) in (bound, rw e, room)

-- A listed host that can take one load more within the bound.
abbrev pub HasRoom : Consistent → ℕ → Text → Type 0
HasRoom c bound x = (h : Host) × (lookup x c.load_map ≡ some h) × (fits h.load (pos bound) ≡ true)

-- The answer: a host with room, and the ring as it was.
abbrev pub IsPick : Consistent → ℕ → Text × Consistent → Type 0
IsPick c bound (x, c') = HasRoom c bound x × (c' ≡ c)

module _ (sum64 : Text → ℕ) (c : Consistent) (ring : IsRing sum64 c) (bound : ℕ)
    (bounded : load_bound (wrap64 (c.total_load +ℤ pos 1)) (length c.load_map) ≡ ok (pos bound))
    (settled : clamp c ≡ c) where
  pub load_ok-within : (x : Text) → load_ok c x ≡ ok (within c.load_map x (pos bound), c)
  unfolding load_ok
  load_ok-within x = rw (settled, bounded)

  pub within-HasRoom : (x : Text) → within c.load_map x (pos bound) ≡ true → HasRoom c bound x
  unfolding within
  within-HasRoom x e = elim (Option-cases (lookup x c.load_map)) [
    | inl missing ↦ ground arith
    | inr (h, found) ↦ (h, found, ground arith)
  ]

  pub HasRoom-within : (x : Text) → HasRoom c bound x → within c.load_map x (pos bound) ≡ true
  unfolding within
  HasRoom-within x (h, found, room) = rw (found, within) room

  pub host_at-ok :
      (i : ℕ) (x : Text)
      → i < length c.sorted_set
      → lookup (c.sorted_set ! i) c.hosts ≡ some x
      → host_at c i ≡ ok x
  unfolding host_at
  host_at-ok i x h owned = rw (get_elem?-! c.sorted_set i h) (ground arith)

  -- The rounds from index `i` to index `t`, past the end of the slice if need be.
  abbrev rounds : ℕ → ℕ → ℕ
  rounds i t = if leb i t then t - i else t + length c.sorted_set - i

  abbrev next_index : ℕ → ℕ
  next_index i = if leb (length c.hosts) (i + 1) then 0 else i + 1

  get_least_loop-IsPick :
      (fuel i t : ℕ) (y : Text)
      → i < length c.sorted_set
      → t < length c.sorted_set
      → lookup (c.sorted_set ! t) c.hosts ≡ some y
      → HasRoom c bound y
      → rounds i t < fuel
      → Returns (IsPick c bound) (get_least_loop fuel c i)
  unfolding get_least_loop
  get_least_loop-IsPick zero i t y hi ht owned room f = absurd (omega arith)
  get_least_loop-IsPick (suc fuel) i t y hi ht owned room f =
      let (x, at) = point_at sum64 c ring i hi in
      rw (host_at-ok i x hi at, load_ok-within x)
        (elim (Bool-cases (within c.load_map x (pos bound))) [
          | inl fine ↦ rw fine (within-HasRoom x fine, refl)
          | inr full ↦ rw full (
              get_least_loop-IsPick fuel (next_index i) t y (ground (arith, ring.spread.index.size))
                ht owned room (closer x at full))
        ])
    where
      closer :
          (x : Text)
          → lookup (c.sorted_set ! i) c.hosts ≡ some x
          → within c.load_map x (pos bound) ≡ false
          → rounds (next_index i) t < fuel
      closer x at full = elim (Bool-cases (i == t)) [
        | inr apart ↦ ground (arith, ring.spread.index.size)
        | inl same ↦
            let here : i ≡ t = ground arith in
            let mine : some x ≡ some y =
              sym at ∙ ap (λ j. lookup (c.sorted_set ! j) c.hosts) here ∙ owned in
            let free : within c.load_map x (pos bound) ≡ true =
              ground (arith, HasRoom-within y room) in
            cc
      ]

fits_room :
    (load : ℤ) (bound : ℕ)
    → neg_part load ≡ 0
    → pos_part load + 1 ≤ bound
    → fits load (pos bound) ≡ true
unfolding ◌+ℤ◌
fits_room load bound n h = ground arith

pub nonempty : (n : ℕ) → 0 < n → (n == 0) ≡ false
nonempty n p = ground arith

some_entry : (x : Text) (m : Map Text Host) → is_some (lookup x m) ≡ true → 0 < length m
unfolding lookup
some_entry x [] h = ground arith
some_entry x (_ ∷ m) h = omega arith

-- Every listed host has a point on the ring.
abbrev pub IsCovered : Consistent → Type 0
IsCovered c =
    (x : Text) → is_some (lookup x c.load_map) ≡ true → (p : ℕ) × (lookup p c.hosts ≡ some x)

module _ (sum64 : Text → ℕ) (c : Consistent) (key : Text) (total : ℕ) (ring : IsRing sum64 c)
    (covered : IsCovered c) (some_host : 0 < length c.hosts) (counted : c.total_load ≡ pos total)
    (small : total + 1 < 2 ^ 63) (no_debt : HasNoDebt c.load_map)
    (summed : load_sum c.load_map ≤ total) where
  some_listed : 0 < length c.load_map
  some_listed =
      let (x, owned) = point_at sum64 c ring 0 (omega (arith, ring.spread.index.size)) in
      some_entry x c.load_map (ring.spread.listed _ x owned)

  pub raised : wrap64 (c.total_load +ℤ pos 1) ≡ pos (total + 1)
  unfolding ◌+ℤ◌
  raised = rw counted (ground arith)

  pub settled_total : clamp c ≡ c
  unfolding clamp
  settled_total = ground arith

  roomy : (bound : ℕ) → (total + 1) / length c.load_map + 1 ≤ bound → (x : Text) × HasRoom c bound x
  roomy bound enough =
      let (x, (h, e, lt, nn)) =
        IsLight-host c.load_map ((total + 1) / length c.load_map + 1) ring.spread.loads_map no_debt
          (grind (arith, some_listed)) in
      (x, (h, e, fits_room h.load bound nn (omega arith)))

  pub get_least_picks :
      (bound : ℕ) × (load_bound (pos (total + 1)) (length c.load_map) ≡ ok (pos bound))
      × Returns (IsPick c bound) (get_least sum64 c key)
  unfolding get_least
  get_least_picks =
      let (bound, bounded, enough) = load_bound_room (total + 1) (length c.load_map) some_listed in
      let (idx, e, s) = Returns-inv (IsSuccessor c.sorted_set (sum64 key) ring.sorted) _ (
        search-IsSuccessor c.sorted_set (sum64 key) ring.sorted
          (omega (arith, ring.spread.index.size))) in
      let (x, room) = roomy bound enough in
      let (p, owned) = covered x (ground (arith, room)) in
      let (t, below, at) =
        count_index p c.sorted_set (ground (arith, ring.spread.index.counts p)) in
      (
        bound,
        bounded,
        rw (nonempty (length c.hosts) some_host, e)
            (get_least_loop-IsPick sum64 c ring bound (rw raised bounded) settled_total
              (length c.sorted_set) idx t x s.0 below (ap (λ q. lookup q c.hosts) at ∙ owned) room
              (ground (arith, s.0))),
      )

-- On a well-formed ring that has a host, with a total load from 0 to less than 2^50 - 1, where the
-- floats of the source are exact: where every listed host has a point, no load is below 0 and the
-- loads sum up to at most the total, `get_least` ends within one turn of the ring, without an
-- error, on a listed host that can take one load more within the bound; it changes nothing.
pub get_least-IsPick :
    (sum64 : Text → ℕ) (c : Consistent) (key : Text) (total : ℕ)
    → IsRing sum64 c
    → IsCovered c
    → 0 < length c.hosts
    → c.total_load ≡ pos total
    → total + 1 < 2 ^ 50
    → HasNoDebt c.load_map
    → load_sum c.load_map ≤ total
    → (bound : ℕ) × (load_bound (pos (total + 1)) (length c.load_map) ≡ ok (pos bound))
      × Returns (IsPick c bound) (get_least sum64 c key)
get_least-IsPick sum64 c key total ring covered some_host counted small no_debt summed =
    get_least_picks sum64 c key total ring covered some_host counted (omega (arith, small)) no_debt
      summed
