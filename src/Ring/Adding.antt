-- ===== src/Ring/Adding.antt =====
-- `add`: the ring stays well formed, and the only new points are those of the new host.
use go_dispatch.Base.Int.{pos}
use go_dispatch.Base.Sorting.{length-sort, ltb_order, sort-IsSortedBy, count-sort, sort}
use go_dispatch.Base.Keys.{text_beq, text_beq_refl, Text, text_eq, nat_eq}
use go_dispatch.Base.Maps.{Map, lookup, insert, lookup-insert, insert-IsMap, length-insert}
use go_dispatch.Base.Shared.{
  ◌∙◌, if◌then◌else◌, ltb, ℕ, zero, suc, ◌+◌, ◌≤◌, ◌<◌, ◌≡◌, refl, ◌≢◌, inl, inr, true, some, none,
  arith, is_some, count-append, length-append, ◌==◌, List, [], ◌∷◌, ◌++◌, Bool-cases, ap,
}
use go_dispatch.Ring.{add, Consistent, add_replicas, replica_point}
use go_dispatch.Ring.Invariant.{IsRing, IsIndex, IsSpread, Grows}

-- The replicas of the host that `add` will place have points of their own.
pub record IsFresh (sum64 : Text → ℕ) (c : Consistent) (x : Text) : Type 0 where
  pub absent : (i : ℕ) → i < c.replicas → lookup (replica_point sum64 x i) c.hosts ≡ none
  pub distinct :
      (i j : ℕ) → i < j → j < c.replicas → replica_point sum64 x i ≢ replica_point sum64 x j

IsIndex-insert :
    (p : ℕ) (x : Text) (hosts : Map ℕ Text) (points : List ℕ)
    → lookup p hosts ≡ none
    → IsIndex hosts points
    → IsIndex (insert p x hosts) (points ++ p ∷ [])
IsIndex-insert p x hosts points free h = record {
  is_map = insert-IsMap p x hosts h.is_map;
  counts =
      λ q. ground (arith, count-append q points (p ∷ []), lookup-insert p q x hosts, h.counts q);
  size = ground (arith, length-append points (p ∷ []), length-insert p x hosts, h.size);
}

Grows-insert :
    (p : ℕ) (x : Text) (hosts : Map ℕ Text)
    → lookup p hosts ≡ none
    → Grows x hosts (insert p x hosts)
Grows-insert p x hosts free q = ground (arith, lookup-insert p q x hosts)

pub Grows-trans : (x : Text) (m m' m'' : Map ℕ Text) → Grows x m m' → Grows x m' m'' → Grows x m m''
Grows-trans x m m' m'' g g' p = ground (arith, g p, g' p)

module _ (sum64 : Text → ℕ) (x : Text) where
  -- One round of the loop.
  abbrev plant : ℕ → Consistent → Consistent
  plant i c = record c {
    hosts = insert (replica_point sum64 x i) x c.hosts;
    sorted_set = c.sorted_set ++ replica_point sum64 x i ∷ [];
  }

  plant-IsSpread :
      (i : ℕ) (c : Consistent)
      → i < c.replicas
      → lookup (replica_point sum64 x i) c.hosts ≡ none
      → is_some (lookup x c.load_map) ≡ true
      → IsSpread sum64 c
      → IsSpread sum64 (plant i c)
  plant-IsSpread i c h free known s = record {
    index = IsIndex-insert (replica_point sum64 x i) x c.hosts c.sorted_set free s.index;
    loads_map = s.loads_map;
    listed =
        λ q y e. ground (arith, lookup-insert (replica_point sum64 x i) q x c.hosts, s.listed q y);
    placed = λ q y e. elim (Bool-cases (replica_point sum64 x i == q)) [
      | inl same ↦
          let owner : x ≡ y = ground (arith, lookup-insert (replica_point sum64 x i) q x c.hosts) in
          (i, h, ground (arith, ap (λ z. replica_point sum64 z i) owner))
      | inr other ↦
          s.placed q y (ground (arith, lookup-insert (replica_point sum64 x i) q x c.hosts))
    ];
  }

  -- What the rounds from `i` on make of the ring.
  record IsPlanted (i : ℕ) (c c' : Consistent) : Type 0 where
    spread : IsSpread sum64 c'
    grows : Grows x c.hosts c'.hosts
    planted : (k : ℕ) → i ≤ k → k < c.replicas → lookup (replica_point sum64 x k) c'.hosts ≡ some x
    same_loads : c'.load_map ≡ c.load_map
    same_total : c'.total_load ≡ c.total_load
    same_replicas : c'.replicas ≡ c.replicas

  add_replicas-IsPlanted :
      (left i : ℕ) (c : Consistent)
      → i + left ≡ c.replicas
      → is_some (lookup x c.load_map) ≡ true
      → ((k : ℕ) → i ≤ k → k < c.replicas → lookup (replica_point sum64 x k) c.hosts ≡ none)
      → ((j k : ℕ) → j < k → k < c.replicas → replica_point sum64 x j ≢ replica_point sum64 x k)
      → IsSpread sum64 c
      → IsPlanted i c (add_replicas sum64 x left i c)
  unfolding add_replicas
  add_replicas-IsPlanted zero i c e known free distinct s = record {
    spread = s;
    grows = λ p. inl refl;
    planted = λ k p q. absurd (omega arith);
    same_loads = refl;
    same_total = refl;
    same_replicas = refl;
  }
  add_replicas-IsPlanted (suc left) i c e known free distinct s =
      let here = free i (omega arith) (omega arith) in
      let rest =
        add_replicas-IsPlanted left (i + 1) (plant i c) (omega arith) known
          (λ k p q. ground (
            arith,
            lookup-insert (replica_point sum64 x i) (replica_point sum64 x k) x c.hosts,
            distinct i k,
            free k,
          ))
          distinct (plant-IsSpread i c (omega arith) here known s) in
      record {
        spread = rest.spread;
        grows =
            Grows-trans x c.hosts _ _ (Grows-insert (replica_point sum64 x i) x c.hosts here)
              rest.grows;
        planted = λ k p q. elim (Bool-cases (i == k)) [
          | inl same ↦
              let e' : i ≡ k = ground arith in
              let kept = rest.grows (replica_point sum64 x i) in
              rw (← e') (
                ground (
                  arith,
                  kept,
                  lookup-insert (replica_point sum64 x i) (replica_point sum64 x i) x c.hosts,
                ))
          | inr other ↦ rest.planted k (ground arith) q
        ];
        same_loads = rest.same_loads;
        same_total = rest.same_total;
        same_replicas = rest.same_replicas;
      }

  -- The ring after `add`: `x` is listed with no load, each of its replicas has its point, and the
  -- other points, hosts and loads are those from before.
  pub record IsAdded (c c' : Consistent) : Type 0 where
    pub ring : IsRing sum64 c'
    pub grows : Grows x c.hosts c'.hosts
    pub planted : (k : ℕ) → k < c.replicas → lookup (replica_point sum64 x k) c'.hosts ≡ some x
    pub loads :
        (y : Text)
        → lookup y c'.load_map
          ≡ (if text_beq x y then some (record { name = x; load = pos 0 }) else lookup y c.load_map)
    pub same_total : c'.total_load ≡ c.total_load
    pub same_replicas : c'.replicas ≡ c.replicas

  abbrev listing : Consistent → Consistent
  listing c = record c { load_map = insert x (record { name = x; load = pos 0 }) c.load_map }

  listing-IsSpread : (c : Consistent) → IsSpread sum64 c → IsSpread sum64 (listing c)
  listing-IsSpread c s = record {
    index = s.index;
    loads_map = insert-IsMap x _ c.load_map s.loads_map;
    listed = λ p y e.
        ground
          (arith, s.listed p y, lookup-insert x y (record { name = x; load = pos 0 }) c.load_map);
    placed = s.placed;
  }

  sort-IsIndex :
      (hosts : Map ℕ Text) (points : List ℕ)
      → IsIndex hosts points
      → IsIndex hosts (sort ltb points)
  sort-IsIndex hosts points h = record {
    is_map = h.is_map;
    counts = λ p. count-sort p points ∙ h.counts p;
    size = length-sort ltb points ∙ h.size;
  }

  -- Adding a host that a well-formed ring does not list, whose replicas have free points of their
  -- own, keeps the ring well formed: the host gets a point for each replica and no load, and
  -- every other point and load stays.
  pub add-IsAdded :
      (c : Consistent)
      → IsRing sum64 c
      → lookup x c.load_map ≡ none
      → IsFresh sum64 c x
      → IsAdded c (add sum64 c x)
  unfolding add
  add-IsAdded c ring new f =
      let at = lookup-insert x x (record { name = x; load = pos 0 }) c.load_map in
      let p =
        add_replicas-IsPlanted c.replicas 0 (listing c) (omega arith)
          (ground (arith, at, text_beq_refl x)) (λ k _ q. f.absent k q) f.distinct
          (listing-IsSpread c ring.spread) in
      rw (new, add)
        (record {
          ring = record {
            spread = record {
              index = sort-IsIndex _ _ p.spread.index;
              loads_map = p.spread.loads_map;
              listed = p.spread.listed;
              placed = p.spread.placed;
            };
            sorted = sort-IsSortedBy ltb ltb_order _;
          };
          grows = p.grows;
          planted = λ k q. p.planted k (omega arith) q;
          loads = λ y.
              rw p.same_loads (lookup-insert x y (record { name = x; load = pos 0 }) c.load_map);
          same_total = p.same_total;
          same_replicas = p.same_replicas;
        })
