-- ===== src/Ring/Disruption.antt =====
-- The promise of consistent hashing: a host that joins or leaves changes the owner of no key that
-- is not its own; and a host that joins and leaves again leaves no trace.
use mathlib.Core.Path.{subst}
use go_dispatch.Base.Sorting.{sorted_unique}
use go_dispatch.Base.Outcome.{Returns, Returns-inv, ok}
use go_dispatch.Base.Keys.{text_beq_iff, text_beq, Text, text_eq, nat_eq}
use go_dispatch.Base.Maps.{Map, lookup}
use go_dispatch.Ring.{replica_point, replication_factor, Consistent, add, remove, get}
use go_dispatch.Ring.Invariant.{IsRing, Grows}
use go_dispatch.Ring.Owner.{IsOwner, get-IsOwner}
use go_dispatch.Ring.Adding.{IsFresh, IsAdded, add-IsAdded}
use go_dispatch.Ring.Removing.{Removed, IsRemoved, remove-IsRemoved, IsRemoved-IsRing}
use go_dispatch.Base.Shared.{
  if◌then◌else◌, Bool-cases, Option-cases, is_some, length, ℕ, ◌≤◌, ◌<◌, ◌≡◌, sym, ap, ◌∙◌, ◌⊎◌,
  inl, inr, Bool, none, some, arith,
}

-- One point clockwise is the first, so a key has one owner.
IsOwner-unique : (m : Map ℕ Text) (h : ℕ) (x y : Text) → IsOwner m h x → IsOwner m h y → x ≡ y
IsOwner-unique m h x y (p, px, first) (q, qy, first') =
    let e : p ≡ q = ground (arith, first q, first' p) in
    let here : lookup q m ≡ some x = rw e at px in cc

-- The owner on the larger ring owns the key on the smaller one too, unless it is the new host.
IsOwner-Grows :
    (x : Text) (m m' : Map ℕ Text) (h : ℕ) (z : Text)
    → Grows x m m'
    → IsOwner m' h z
    → (z ≡ x) ⊎ IsOwner m h z
IsOwner-Grows x m m' h z g (p, pz, first) = elim (g p) [
  | inl same ↦ inr (p, sym same ∙ pz, λ q there. first q (ground (arith, g q)))
  | inr (_, new) ↦ inl (ground arith)
]

module _ (sum64 : Text → ℕ) where
  answers :
      (c : Consistent) (key y : Text)
      → IsRing sum64 c
      → 0 < length c.hosts
      → get sum64 c key ≡ ok y
      → IsOwner c.hosts (sum64 key) y
  answers c key y ring some_host got = rw got at (get-IsOwner sum64 c ring key some_host)

  -- Two rings of which the larger one has more points of `x` only.
  same_or_new :
      (c c' : Consistent) (x key y z : Text)
      → IsRing sum64 c
      → IsRing sum64 c'
      → Grows x c.hosts c'.hosts
      → 0 < length c.hosts
      → 0 < length c'.hosts
      → get sum64 c key ≡ ok y
      → get sum64 c' key ≡ ok z
      → (z ≡ x) ⊎ (z ≡ y)
  same_or_new c c' x key y z ring ring' g n n' got got' =
      elim (IsOwner-Grows x c.hosts c'.hosts (sum64 key) z g (answers c' key z ring' n' got')) [
        | inl new ↦ inl new
        | inr old ↦ inr (IsOwner-unique c.hosts (sum64 key) z y old (answers c key y ring n got))
      ]

  some_point : (c : Consistent) (key y : Text) → get sum64 c key ≡ ok y → 0 < length c.hosts
  unfolding get
  some_point c key y got = ground arith

  -- When a host that is not listed, with free points of its own, joins a well-formed ring, a key
  -- either keeps its host or goes to the new one.
  pub add_disrupts_little :
      (c : Consistent) (x key y z : Text)
      → IsRing sum64 c
      → lookup x c.load_map ≡ none
      → IsFresh sum64 c x
      → get sum64 c key ≡ ok y
      → get sum64 (add sum64 c x) key ≡ ok z
      → (z ≡ x) ⊎ (z ≡ y)
  add_disrupts_little c x key y z ring new fresh got got' =
      let a = add-IsAdded sum64 x c ring new fresh in
      same_or_new c (add sum64 c x) x key y z ring a.ring a.grows (some_point c key y got)
        (some_point (add sum64 c x) key z got') got got'

  -- The points of the host's first 50 replicas belong to no other host.
  abbrev pub IsOwn : Consistent → Text → Type 0
  IsOwn c x =
      (k : ℕ) (y : Text)
      → k < replication_factor
      → lookup (replica_point sum64 x k) c.hosts ≡ some y
      → y ≡ x

  Grows-IsRemoved :
      (c c' : Consistent) (x : Text) → IsOwn c x → IsRemoved sum64 x c c' → Grows x c'.hosts c.hosts
  Grows-IsRemoved c c' x own r p = elim (r.kept p) [
    | inl same ↦ inl (sym same)
    | inr (gone, (k, below, at)) ↦ elim (Option-cases (lookup p c.hosts)) [
      | inl free ↦ inl (free ∙ sym gone)
      | inr (y, owned) ↦
          let mine = own k y below (ap (λ q. lookup q c.hosts) (sym at) ∙ owned) in
          inr (gone, owned ∙ ap some mine)
    ]
  ]

  -- The ring that `remove` answers with.
  remove_ok :
      (c c' : Consistent) (x : Text) (found : Bool)
      → IsRing sum64 c
      → remove sum64 c x ≡ ok (found, c')
      → IsRemoved sum64 x c c'
  remove_ok c c' x found ring gone =
      (subst (Returns (Removed sum64 x c)) gone (remove-IsRemoved sum64 x c ring)).1

  -- When a host leaves a well-formed ring of at most 50 replicas, only keys that it owned change
  -- their host. The points of the host's first 50 replicas are taken to belong to no other host.
  pub remove_disrupts_little :
      (c c' : Consistent) (x key y z : Text) (found : Bool)
      → IsRing sum64 c
      → c.replicas ≤ replication_factor
      → IsOwn c x
      → remove sum64 c x ≡ ok (found, c')
      → get sum64 c key ≡ ok y
      → get sum64 c' key ≡ ok z
      → (y ≡ x) ⊎ (y ≡ z)
  remove_disrupts_little c c' x key y z found ring few own gone got got' =
      let r = remove_ok c c' x found ring gone in
      same_or_new c' c x key z y (IsRemoved-IsRing sum64 x c c' ring r few) ring
        (Grows-IsRemoved c c' x own r) (some_point c' key z got') (some_point c key y got) got' got

  -- The same points with the same owners, the same slice and the same loads.
  abbrev pub SameRing : Consistent → Consistent → Type 0
  SameRing c c' =
      ((p : ℕ) → lookup p c'.hosts ≡ lookup p c.hosts)
      × (c'.sorted_set ≡ c.sorted_set)
      × ((y : Text) → lookup y c'.load_map ≡ lookup y c.load_map)
      × (c'.total_load ≡ c.total_load)

  module _ (c c' c'' : Consistent) (x : Text) (ring : IsRing sum64 c) (a : IsAdded sum64 x c c')
      (r : IsRemoved sum64 x c' c'') (few : c.replicas ≤ replication_factor)
      (free : (k : ℕ)
        → k < replication_factor
        → lookup (replica_point sum64 x k) c.hosts ≡ none) where
    points_restored : (p : ℕ) → lookup p c''.hosts ≡ lookup p c.hosts
    points_restored p = elim (a.grows p) [
      | inr (before, planted) ↦
          let (i, below, at) = a.ring.spread.placed p x planted in
          let enough : i < replication_factor = omega (arith, a.same_replicas) in
          ap (λ q. lookup q c''.hosts) at ∙ r.erased i enough ∙ sym before
      | inl same ↦ elim (r.kept p) [
        | inl same' ↦ same' ∙ same
        | inr (gone, (k, below, at)) ↦ gone ∙ sym (ap (λ q. lookup q c.hosts) at ∙ free k below)
      ]
    ]

    slice_restored : c''.sorted_set ≡ c.sorted_set
    slice_restored = sorted_unique c''.sorted_set c.sorted_set r.sorted ring.sorted λ p.
        r.index.counts p
        ∙ ap (λ o. if is_some o then 1 else 0) (points_restored p)
        ∙ sym (ring.spread.index.counts p)

    loads_restored :
        lookup x c.load_map ≡ none → (y : Text) → lookup y c''.load_map ≡ lookup y c.load_map
    loads_restored new y = elim (Bool-cases (text_beq x y)) [
      | inl same ↦
          let mine : x ≡ y = (text_beq_iff x y).0 same in
          ground (arith, r.loads y, ap (λ z. lookup z c.load_map) mine)
      | inr other ↦ ground (arith, r.loads y, a.loads y)
    ]

  -- A host that is not listed and joins a well-formed ring of at most 50 replicas, and leaves
  -- again, leaves the ring as it was: the points and their owners, the sorted slice, the loads
  -- and the total. The points of its first 50 replicas are taken to be free, and those of its
  -- replicas to differ.
  pub remove-add :
      (c : Consistent) (x : Text)
      → IsRing sum64 c
      → c.replicas ≤ replication_factor
      → lookup x c.load_map ≡ none
      → IsFresh sum64 c x
      → ((k : ℕ) → k < replication_factor → lookup (replica_point sum64 x k) c.hosts ≡ none)
      → Returns (λ (_, c''). SameRing c c'') (remove sum64 (add sum64 c x) x)
  remove-add c x ring few new fresh free =
      let a = add-IsAdded sum64 x c ring new fresh in
      let c' = add sum64 c x in
      let (res, e, (_, r)) =
        Returns-inv (Removed sum64 x c') _ (remove-IsRemoved sum64 x c' a.ring) in
      rw e (
        points_restored c c' res.1 x ring a r few free,
        slice_restored c c' res.1 x ring a r few free,
        loads_restored c c' res.1 x ring a r few free new,
        r.same_total ∙ a.same_total,
      )
