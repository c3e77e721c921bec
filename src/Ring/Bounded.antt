-- ===== src/Ring/Bounded.antt =====
-- GetLeast and Inc of consistenthash/consistenthash.go: no host has more load than the bound.
use mathlib.Core.Path.{subst, ap₂}
use native.Mathlib.Nat.{le-div_iff_mul-le, div-mul-le_self}
use go_dispatch.Ring.Least.{IsPick, get_least_picks, HasRoom, load_sum, HasNoDebt, IsCovered}
use go_dispatch.Base.Maps.{insert-IsMap, lookup-insert, length-insert, Map, insert, lookup}
use go_dispatch.Ring.Invariant.{IsRing}
use go_dispatch.Base.Int.{negsuc, wrap64, ℤ, ◌+ℤ◌, neg_part, pos_part, pos}
use go_dispatch.Ring.{
  add_load, fits, one_at_least, ceil_scaled, inc, get_least, Host, load_bound, Consistent,
}
use go_dispatch.Base.Outcome.{Returns-inv, ok}
use go_dispatch.Base.Keys.{text_beq_iff, text_beq, Text, text_eq, nat_eq}
use go_dispatch.Base.Shared.{
  if◌then◌else◌, Bool-cases, is_some, length, ℕ, zero, suc, ◌+◌, ◌*◌, ◌/◌, ◌^◌, ◌≤◌, ◌<◌, ◌≡◌, refl,
  sym, ap, ◌∙◌, ◌⊎◌, inl, inr, true, false, none, some, [], ◌∷◌, arith,
}

-- No host has more load than the bound for the total allows.
pub record IsCapped (c : Consistent) (total : ℕ) : Type 0 where
  pub bound : ℕ
  pub bounded : load_bound (pos total) (length c.load_map) ≡ ok (pos bound)
  pub below : (x : Text) (h : Host) → lookup x c.load_map ≡ some h → pos_part h.load ≤ bound

pub record IsLoaded (sum64 : Text → ℕ) (c : Consistent) (total : ℕ) : Type 0 where
  pub ring : IsRing sum64 c
  pub covered : IsCovered c
  pub some_host : 0 < length c.hosts
  pub counted : c.total_load ≡ pos total
  pub no_debt : HasNoDebt c.load_map
  pub summed : load_sum c.load_map ≤ total
  pub capped : IsCapped c total

module _ (x : Text) (h h' : Host) where
  here_or_later :
      (y : Text) (k : Host) (m : Map Text Host)
      → lookup x ((y, k) ∷ m) ≡ some h
      → ((text_beq y x ≡ true) × (k ≡ h)) ⊎ ((text_beq y x ≡ false) × (lookup x m ≡ some h))
  unfolding lookup
  here_or_later y k m e = elim (Bool-cases (text_beq y x)) [
    | inl same ↦ inl (same, cc)
    | inr other ↦ inr (other, cc)
  ]

  insert-load_sum :
      (m : Map Text Host)
      → lookup x m ≡ some h
      → load_sum (insert x h' m) + pos_part h.load ≡ load_sum m + pos_part h'.load
  unfolding insert lookup
  insert-load_sum [] e = absurd cc
  insert-load_sum ((y, k) ∷ m) e = elim (here_or_later y k m e) [
    | inl (same, mine) ↦ rw (same, mine) (omega arith)
    | inr (other, rest) ↦ rw other (omega (arith, insert-load_sum m rest))
  ]

  insert-HasNoDebt :
      (m : Map Text Host) → neg_part h'.load ≡ 0 → HasNoDebt m → HasNoDebt (insert x h' m)
  unfolding insert
  insert-HasNoDebt [] none_here d = (none_here, tt)
  insert-HasNoDebt ((y, k) ∷ m) none_here d = elim (Bool-cases (text_beq y x)) [
    | inl same ↦ rw same (none_here, d.1)
    | inr other ↦ rw other (d.0, insert-HasNoDebt m none_here d.1)
  ]

  load-le : (m : Map Text Host) → lookup x m ≡ some h → pos_part h.load ≤ load_sum m
  unfolding lookup
  load-le [] e = absurd cc
  load-le ((y, k) ∷ m) e = elim (here_or_later y k m e) [
    | inl (same, mine) ↦ rw mine (omega arith)
    | inr (other, rest) ↦ omega (arith, load-le m rest)
  ]

  HasNoDebt-lookup : (m : Map Text Host) → HasNoDebt m → lookup x m ≡ some h → neg_part h.load ≡ 0
  unfolding lookup
  HasNoDebt-lookup [] d e = absurd cc
  HasNoDebt-lookup ((y, k) ∷ m) d e = elim (here_or_later y k m e) [
    | inl (same, mine) ↦ ap (λ (z : Host). neg_part z.load) (sym mine) ∙ d.0
    | inr (other, rest) ↦ HasNoDebt-lookup m d.1 rest
  ]

scaled_mono :
    (a b u v : ℕ)
    → a ≤ b
    → ceil_scaled (one_at_least (pos a)) ≡ pos u
    → ceil_scaled (one_at_least (pos b)) ≡ pos v
    → u ≤ v
scaled_mono zero zero u v h e e' = ground arith
scaled_mono zero (suc b) u v h e e' = ground arith
scaled_mono (suc a) zero u v h e e' = absurd (omega arith)
scaled_mono (suc a) (suc b) u v h e e' = ground arith

-- The bound grows with the total.
load_bound_mono :
    (total n bound bound' : ℕ)
    → load_bound (pos total) n ≡ ok (pos bound)
    → load_bound (pos (total + 1)) n ≡ ok (pos bound')
    → bound ≤ bound'
unfolding load_bound
load_bound_mono total zero bound bound' e e' = absurd cc
load_bound_mono total (suc n) bound bound' e e' =
    let floor : total / suc n * suc n ≤ total = div-mul-le_self total (suc n) in
    let grows : total / suc n ≤ (total + 1) / suc n =
      (le-div_iff_mul-le (omega arith)).1 (omega (arith, floor)) in
    let here : ceil_scaled (one_at_least (pos (total / suc n))) ≡ pos bound = cc in
    let there : ceil_scaled (one_at_least (pos ((total + 1) / suc n))) ≡ pos bound' = cc in
    scaled_mono (total / suc n) ((total + 1) / suc n) bound bound' grows here there

is_pos : (z : ℤ) → neg_part z ≡ 0 → z ≡ pos (pos_part z)
is_pos (pos n) h = refl
is_pos (negsuc n) h = absurd (omega arith)

wrap64_small : (a : ℕ) → a + 1 < 2 ^ 63 → wrap64 (pos a +ℤ pos 1) ≡ pos (a + 1)
unfolding ◌+ℤ◌
wrap64_small a h = ground arith

fits-room : (a bound : ℕ) → fits (pos a) (pos bound) ≡ true → a + 1 ≤ bound
unfolding ◌+ℤ◌
fits-room a bound h = ground arith

-- The host with one load more, and the ring with it.
abbrev raised_host : Host → Host
raised_host h = record h { load = pos (pos_part h.load + 1) }

abbrev raised_ring : Consistent → ℕ → Text → Host → Consistent
raised_ring c total x h = record c {
  load_map = insert x (raised_host h) c.load_map;
  total_load = pos (total + 1);
}

inc-raised_ring :
    (c : Consistent) (total : ℕ) (x : Text) (h : Host)
    → c.total_load ≡ pos total
    → total + 1 < 2 ^ 63
    → lookup x c.load_map ≡ some h
    → h.load ≡ pos (pos_part h.load)
    → pos_part h.load ≤ total
    → inc c x ≡ raised_ring c total x h
unfolding inc add_load
inc-raised_ring c total x h counted small found whole most =
    ap
      (λ o. elim o [
        | none ↦ c
        | some k ↦ record c {
          load_map = insert x (record k { load = wrap64 (k.load +ℤ pos 1) }) c.load_map;
          total_load = wrap64 (c.total_load +ℤ pos 1);
        }
      ])
      found
    ∙ ap₂
        (λ load sum. record c {
          load_map = insert x (record h { load = load }) c.load_map;
          total_load = sum;
        })
        (ap (λ z. wrap64 (z +ℤ pos 1)) whole
          ∙ wrap64_small (pos_part h.load) (omega (arith, small, most)))
        (ap (λ z. wrap64 (z +ℤ pos 1)) counted ∙ wrap64_small total small)

module _ (sum64 : Text → ℕ) where
  raised-lookup :
      (m : Map Text Host) (x : Text) (h' : Host) (y : Text)
      → (y ≡ x) × (lookup y (insert x h' m) ≡ some h') ⊎ (lookup y (insert x h' m) ≡ lookup y m)
  raised-lookup m x h' y = elim (Bool-cases (text_beq x y)) [
    | inl same ↦ inl (
      sym ((text_beq_iff x y).0 same),
      lookup-insert x y h' m ∙ ap (λ b. if b then some h' else lookup y m) same,
    )
    | inr other ↦ inr (lookup-insert x y h' m ∙ ap (λ b. if b then some h' else lookup y m) other)
  ]

  raised_ring-IsLoaded :
      (c : Consistent) (total bound : ℕ) (x : Text) (h : Host)
      → IsLoaded sum64 c total
      → load_bound (pos (total + 1)) (length c.load_map) ≡ ok (pos bound)
      → lookup x c.load_map ≡ some h
      → pos_part h.load + 1 ≤ bound
      → IsLoaded sum64 (raised_ring c total x h) (total + 1)
  raised_ring-IsLoaded c total bound x h l bounded found fits_one =
      let same_length : length (insert x (raised_host h) c.load_map) ≡ length c.load_map =
        length-insert x (raised_host h) c.load_map
        ∙ ap (λ o. if is_some o then length c.load_map else suc (length c.load_map)) found in
      let grows =
        load_bound_mono total (length c.load_map) l.capped.bound bound l.capped.bounded bounded in
      record {
        ring = record {
          spread = record {
            index = l.ring.spread.index;
            loads_map = insert-IsMap x (raised_host h) c.load_map l.ring.spread.loads_map;
            listed = λ p y owned. elim (raised-lookup c.load_map x (raised_host h) y) [
              | inl (_, e) ↦ ap is_some e
              | inr e ↦ ap is_some e ∙ l.ring.spread.listed p y owned
            ];
            placed = l.ring.spread.placed;
          };
          sorted = l.ring.sorted;
        };
        covered = λ y there. l.covered y (elim (raised-lookup c.load_map x (raised_host h) y) [
          | inl (same, _) ↦ rw same (ap is_some found)
          | inr e ↦ ap is_some (sym e) ∙ there
        ]);
        some_host = l.some_host;
        counted = refl;
        no_debt = insert-HasNoDebt x h (raised_host h) c.load_map refl l.no_debt;
        summed = omega (arith, insert-load_sum x h (raised_host h) c.load_map found, l.summed);
        capped = record {
          bound = bound;
          bounded = ap (λ n. load_bound (pos (total + 1)) n) same_length ∙ bounded;
          below = λ y k there. elim (raised-lookup c.load_map x (raised_host h) y) [
            | inl (_, e) ↦
                let mine : raised_host h ≡ k = cc in
                subst (λ (z : Host). pos_part z.load ≤ bound) mine fits_one
            | inr e ↦ omega (arith, l.capped.below y k (sym e ∙ there), grows)
          ];
        };
      }

  -- A listed host with room for one load more gets it.
  inc-IsLoaded :
      (c : Consistent) (total bound : ℕ) (x : Text)
      → IsLoaded sum64 c total
      → total + 1 < 2 ^ 63
      → load_bound (pos (total + 1)) (length c.load_map) ≡ ok (pos bound)
      → HasRoom c bound x
      → IsLoaded sum64 (inc c x) (total + 1)
  inc-IsLoaded c total bound x l small bounded (h, found, room) =
      let no_debt = HasNoDebt-lookup x h h c.load_map l.no_debt found in
      let whole : h.load ≡ pos (pos_part h.load) = is_pos h.load no_debt in
      let most = load-le x h h c.load_map found in
      let fits_one : pos_part h.load + 1 ≤ bound =
        fits-room (pos_part h.load) bound (ap (λ z. fits z (pos bound)) (sym whole) ∙ room) in
      rw (inc-raised_ring c total x h l.counted small found whole (omega (arith, most, l.summed)))
        (raised_ring-IsLoaded c total bound x h l bounded found fits_one)

  -- GetLeast finds a host, and after Inc no host has more load than the bound allows.
  pub get_least-inc-IsLoaded :
      (c : Consistent) (total : ℕ) (key : Text)
      → IsLoaded sum64 c total
      → total + 1 < 2 ^ 63
      → (x : Text) × (get_least sum64 c key ≡ ok (x, c)) × IsLoaded sum64 (inc c x) (total + 1)
  get_least-inc-IsLoaded c total key l small =
      let (bound, bounded, returned) =
        get_least_picks sum64 c key total l.ring l.covered l.some_host l.counted small l.no_debt
          l.summed in
      let ((x, c'), e, (room, same)) =
        Returns-inv (IsPick c bound) (get_least sum64 c key) returned in
      (x, e ∙ ap (λ d. ok (x, d)) same, inc-IsLoaded c total bound x l small bounded room)
