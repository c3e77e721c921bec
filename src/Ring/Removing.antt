-- ===== src/Ring/Removing.antt =====
-- `remove`: which points leave the ring, and when the ring stays well formed.
use go_dispatch.Base.Outcome.{Returns-inv, Returns}
use go_dispatch.Base.Sorting.{IsSorted}
use go_dispatch.Base.Keys.{text_beq_iff, text_beq_refl, text_beq, Text, text_eq, nat_eq}
use go_dispatch.Base.Maps.{IsMap, Map, lookup, erase, lookup-erase, erase-IsMap, length-erase}
use go_dispatch.Base.Shared.{
  ◌==◌, if◌then◌else◌, Bool-cases, ℕ, zero, suc, ◌+◌, ◌≤◌, ◌<◌, ◌≡◌, refl, sym, ap, ◌∙◌, ◌≢◌, ◌⊎◌,
  inl, inr, Bool, true, false, none, some, List, arith,
}
use go_dispatch.Ring.{remove, replication_factor, remove_replicas, replica_point, Consistent}
use go_dispatch.Points.Delete.{IsCut, del_slice-IsCut}
use go_dispatch.Ring.Invariant.{IsRing, IsIndex, IsReplica}

module _ (p : ℕ) (hosts : Map ℕ Text) (points : List ℕ) (h : IsIndex hosts points) where
  IsIndex-erase :
      (sorted : IsSorted points) (out : List ℕ)
      → IsCut points p sorted out
      → IsIndex (erase p hosts) out
  IsIndex-erase sorted out cut = record {
    is_map = erase-IsMap p hosts h.is_map;
    counts = λ q. ground (arith, cut.counts q, lookup-erase p q hosts, h.counts q, h.counts p);
    size = ground (arith, cut.size, length-erase p hosts h.is_map, h.size, h.counts p);
  }

module _ (sum64 : Text → ℕ) (x : Text) where
  -- What the rounds from `i` up to `n` leave of the ring.
  record IsCleared (i n : ℕ) (c c' : Consistent) : Type 0 where
    index : IsIndex c'.hosts c'.sorted_set
    sorted : IsSorted c'.sorted_set
    erased : (k : ℕ) → i ≤ k → k < n → lookup (replica_point sum64 x k) c'.hosts ≡ none
    kept :
        (p : ℕ)
        → (lookup p c'.hosts ≡ lookup p c.hosts)
          ⊎ ((lookup p c'.hosts ≡ none) × IsReplica sum64 x n p)
    same_loads : c'.load_map ≡ c.load_map
    same_total : c'.total_load ≡ c.total_load
    same_replicas : c'.replicas ≡ c.replicas

  remove_replicas-IsCleared :
      (left i n : ℕ) (c : Consistent)
      → i + left ≡ n
      → IsIndex c.hosts c.sorted_set
      → IsSorted c.sorted_set
      → Returns (IsCleared i n c) (remove_replicas sum64 x left i c)
  unfolding remove_replicas
  remove_replicas-IsCleared zero i n c e index sorted = record {
    index = index;
    sorted = sorted;
    erased = λ k p q. absurd (omega arith);
    kept = λ p. inl refl;
    same_loads = refl;
    same_total = refl;
    same_replicas = refl;
  }
  remove_replicas-IsCleared (suc left) i n c e index sorted =
      let h = replica_point sum64 x i in
      let (out, deleted, cut) =
        Returns-inv (IsCut c.sorted_set (replica_point sum64 x i) sorted) _
          (del_slice-IsCut c.sorted_set (replica_point sum64 x i) sorted) in
      let next = record c { hosts = erase (replica_point sum64 x i) c.hosts; sorted_set = out } in
      let (c', ends, r) = Returns-inv (IsCleared (i + 1) n next) _ (
        remove_replicas-IsCleared left (i + 1) n next (omega arith)
          (IsIndex-erase (replica_point sum64 x i) c.hosts c.sorted_set index sorted out cut)
          cut.still_sorted) in
      rw (deleted, ends)
        (record {
          index = r.index;
          sorted = r.sorted;
          erased = λ k p q. elim (Bool-cases (i == k)) [
            | inl same ↦
                let e' : i ≡ k = ground arith in
                rw (← e') (
                  ground (
                    arith,
                    r.kept (replica_point sum64 x i),
                    lookup-erase (replica_point sum64 x i) (replica_point sum64 x i) c.hosts,
                  ))
            | inr other ↦ r.erased k (ground arith) q
          ];
          kept = λ p. kept_after i c c' p (omega arith) (r.kept p);
          same_loads = r.same_loads;
          same_total = r.same_total;
          same_replicas = r.same_replicas;
        })
    where
      kept_after :
          (i : ℕ) (c c' : Consistent) (p : ℕ)
          → i < n
          → (lookup p c'.hosts ≡ lookup p (erase (replica_point sum64 x i) c.hosts))
            ⊎ ((lookup p c'.hosts ≡ none) × IsReplica sum64 x n p)
          → (lookup p c'.hosts ≡ lookup p c.hosts)
            ⊎ ((lookup p c'.hosts ≡ none) × IsReplica sum64 x n p)
      kept_after i c c' p below (inr gone) = inr gone
      kept_after i c c' p below (inl same) = elim (Bool-cases (replica_point sum64 x i == p)) [
        | inl hit ↦ inr (
          ground (arith, lookup-erase (replica_point sum64 x i) p c.hosts),
          (i, below, ground arith),
        )
        | inr miss ↦ inl (ground (arith, lookup-erase (replica_point sum64 x i) p c.hosts))
      ]

  -- The ring after `remove`: none of the first 50 replicas of `x` has a point, `x` is not listed,
  -- every other point and every other load stays, and so does the total load.
  pub record IsRemoved (c c' : Consistent) : Type 0 where
    pub index : IsIndex c'.hosts c'.sorted_set
    pub sorted : IsSorted c'.sorted_set
    pub erased : (k : ℕ) → k < replication_factor → lookup (replica_point sum64 x k) c'.hosts ≡ none
    pub kept :
        (p : ℕ)
        → (lookup p c'.hosts ≡ lookup p c.hosts)
          ⊎ ((lookup p c'.hosts ≡ none) × IsReplica sum64 x replication_factor p)
    pub loads_map : IsMap c'.load_map
    pub unlisted : c'.load_map ≡ erase x c.load_map
    pub loads :
        (y : Text) → lookup y c'.load_map ≡ (if text_beq x y then none else lookup y c.load_map)
    pub same_total : c'.total_load ≡ c.total_load
    pub same_replicas : c'.replicas ≡ c.replicas

  -- What `Remove` answers: `true`, and the ring that is left.
  abbrev pub Removed : Consistent → Bool × Consistent → Type 0
  Removed c (answer, c') = (answer ≡ true) × IsRemoved c c'

  -- On a well-formed ring `remove` ends without a panic. It clears the points of the first 50
  -- replicas of the host and its load, and leaves every other point, every other load and the
  -- total load as they were.
  pub remove-IsRemoved : (c : Consistent) → IsRing sum64 c → Returns (Removed c) (remove sum64 c x)
  unfolding remove
  remove-IsRemoved c ring =
      let (c', ends, r) = Returns-inv (IsCleared 0 replication_factor c) _ (
        remove_replicas-IsCleared replication_factor 0 replication_factor c (omega arith)
          ring.spread.index ring.sorted) in
      rw ends (
        refl,
        record {
          index = r.index;
          sorted = r.sorted;
          erased = λ k q. r.erased k (omega arith) q;
          kept = r.kept;
          unlisted = ap (erase x) r.same_loads;
          loads_map = rw r.same_loads (erase-IsMap x c.load_map ring.spread.loads_map);
          loads = λ y. rw r.same_loads (lookup-erase x y c.load_map);
          same_total = r.same_total;
          same_replicas = r.same_replicas;
        },
      )

  module _ (c c' : Consistent) (ring : IsRing sum64 c) (r : IsRemoved c c') where
    point_before : (p : ℕ) (y : Text) → lookup p c'.hosts ≡ some y → lookup p c.hosts ≡ some y
    point_before p y e = ground (arith, r.kept p)

    -- With at most 50 replicas no point of the removed host is left.
    disowned :
        c.replicas ≤ replication_factor
        → (p : ℕ) (y : Text) → lookup p c'.hosts ≡ some y
        → text_beq x y ≡ false
    disowned few p y e = elim (Bool-cases (text_beq x y)) [
      | inr other ↦ other
      | inl same ↦
          let (k, below, at) = ring.spread.placed p y (point_before p y e) in
          let mine : x ≡ y = (text_beq_iff x y).0 same in
          let here : p ≡ replica_point sum64 x k =
            at ∙ ap (λ z. replica_point sum64 z k) (sym mine) in
          let gone : lookup p c'.hosts ≡ none = rw here (r.erased k (omega arith)) in cc
    ]

    pub IsRemoved-IsRing : c.replicas ≤ replication_factor → IsRing sum64 c'
    IsRemoved-IsRing few = record {
      spread = record {
        index = r.index;
        loads_map = r.loads_map;
        listed = λ p y e.
            ground
              (arith, disowned few p y e, r.loads y, ring.spread.listed p y (point_before p y e));
        placed = λ p y e. rw r.same_replicas (ring.spread.placed p y (point_before p y e));
      };
      sorted = r.sorted;
    }

  -- On a well-formed ring with at most 50 replicas, `remove` leaves a well-formed ring in which
  -- the removed host owns no point.
  pub remove-IsRing :
      (c : Consistent)
      → IsRing sum64 c
      → c.replicas ≤ replication_factor
      → Returns
          (λ (_, c'). IsRing sum64 c' × ((p : ℕ) → lookup p c'.hosts ≢ some x))
          (remove sum64 c x)
  remove-IsRing c ring few =
      let (res, e, (_, r)) = Returns-inv (Removed c) _ (remove-IsRemoved c ring) in
      rw e (
        IsRemoved-IsRing c res.1 ring r few,
        λ p owned. let other = disowned c res.1 ring r few p x owned in cc (text_beq_refl x),
      )

  -- `remove` on a well-formed ring clears 50 replicas whatever the ring's own number is: a point
  -- of the host beyond those, which is none of their points, still belongs to the host after it
  -- was removed, while the host is no longer listed.
  pub remove_leaves :
      (c : Consistent) (p : ℕ)
      → IsRing sum64 c
      → lookup p c.hosts ≡ some x
      → ((k : ℕ) → k < replication_factor → p ≢ replica_point sum64 x k)
      → Returns
          (λ (_, c'). (lookup p c'.hosts ≡ some x) × (lookup x c'.load_map ≡ none))
          (remove sum64 c x)
  remove_leaves c p ring owned beyond =
      let (res, e, (_, r)) = Returns-inv (Removed c) _ (remove-IsRemoved c ring) in
      rw e (stays res.1 (r.kept p), ground (arith, r.loads x, text_beq_refl x))
    where
      stays :
          (c' : Consistent)
          → (lookup p c'.hosts ≡ lookup p c.hosts)
            ⊎ ((lookup p c'.hosts ≡ none) × IsReplica sum64 x replication_factor p)
          → lookup p c'.hosts ≡ some x
      stays c' (inl same) = same ∙ owned
      stays c' (inr (_, (k, below, at))) = absurd (beyond k below at)
