-- ===== src/Ring/Complete.antt =====
-- Rings that hold every replica of the hosts they list: two of them that list the same hosts are
-- one ring, in whatever order the hosts came and went.
use go_dispatch.Ring.Removing.{IsRemoved-IsRing, remove-IsRemoved, Removed}
use go_dispatch.Ring.Adding.{IsFresh, add-IsAdded}
use go_dispatch.Base.Outcome.{Returns-inv, Returns}
use go_dispatch.Base.Maps.{lookup}
use go_dispatch.Ring.Invariant.{listed, Grows, IsRing}
use go_dispatch.Ring.{remove, Host, add, replica_point, Consistent, replication_factor}
use go_dispatch.Base.Keys.{text_beq_refl, text_beq_iff, text_beq, Text, text_eq, nat_eq}
use go_dispatch.Base.Shared.{
  Bool-cases, Option-cases, ℕ, ◌≤◌, ◌<◌, ◌≡◌, refl, sym, ap, ◌∙◌, inl, inr, true, false, some,
  arith,
}

-- No two replicas of the known hosts share a point, as far as Remove looks at replicas.
abbrev pub NoCollisions : (Text → ℕ) → (Text → Type 0) → Type 0
NoCollisions sum64 IsKnown =
    (x y : Text) (i j : ℕ)
    → IsKnown x
    → IsKnown y
    → i < replication_factor
    → j < replication_factor
    → replica_point sum64 x i ≡ replica_point sum64 y j
    → (x ≡ y) × (i ≡ j)

-- A ring of `n` replicas that lists known hosts only, and where each replica of a listed host has
-- its point.
pub record IsComplete (sum64 : Text → ℕ) (IsKnown : Text → Type 0) (n : ℕ) (c : Consistent)
    : Type 0 where
  pub ring : IsRing sum64 c
  pub replicas : c.replicas ≡ n
  pub known : (y : Text) → listed c y ≡ true → IsKnown y
  pub planted :
      (y : Text) (k : ℕ)
      → listed c y ≡ true
      → k < n
      → lookup (replica_point sum64 y k) c.hosts ≡ some y

module _ (sum64 : Text → ℕ) (IsKnown : Text → Type 0) (apart : NoCollisions sum64 IsKnown) (n : ℕ)
    (few : n ≤ replication_factor) where
  -- The owner of a point of a known host is that host.
  owner_known :
      (c : Consistent) (x y : Text) (i : ℕ)
      → IsComplete sum64 IsKnown n c
      → IsKnown x
      → i < replication_factor
      → lookup (replica_point sum64 x i) c.hosts ≡ some y
      → x ≡ y
  owner_known c x y i h here below owned =
      let there = h.ring.spread.listed _ y owned in
      let (j, inside, at) = h.ring.spread.placed _ y owned in
      (apart x y i j here (h.known y there) below (omega (arith, h.replicas)) at).0

  unlisted-IsFresh :
      (c : Consistent) (x : Text)
      → IsComplete sum64 IsKnown n c
      → IsKnown x
      → listed c x ≡ false
      → IsFresh sum64 c x
  unlisted-IsFresh c x h here new = record {
    absent = λ i below. elim (Option-cases (lookup (replica_point sum64 x i) c.hosts)) [
      | inl free ↦ free
      | inr (y, owned) ↦
          let mine = owner_known c x y i h here (omega (arith, h.replicas)) owned in
          let there : listed c x ≡ true = rw mine (h.ring.spread.listed _ y owned) in cc
    ];
    distinct = λ i j less below same.
        let e =
          (apart x x i j here here (omega (arith, h.replicas)) (omega (arith, h.replicas))
            same).1 in
        omega arith;
  }

  kept_point :
      (c c' : Consistent) (x y : Text) (p : ℕ)
      → Grows x c.hosts c'.hosts
      → lookup p c.hosts ≡ some y
      → lookup p c'.hosts ≡ some y
  kept_point c c' x y p grows owned = ground (arith, grows p)

  add_again :
      (c : Consistent) (x : Text) (host : Host)
      → lookup x c.load_map ≡ some host
      → add sum64 c x ≡ c
  unfolding add
  add_again c x host there = rw (add, there) refl

  pub add-IsComplete :
      (c : Consistent) (x : Text)
      → IsComplete sum64 IsKnown n c
      → IsKnown x
      → IsComplete sum64 IsKnown n (add sum64 c x)
  add-IsComplete c x h here = elim (Option-cases (lookup x c.load_map)) [
    | inr (host, there) ↦ rw (add_again c x host there) h
    | inl new ↦
        let a =
          add-IsAdded sum64 x c h.ring new (unlisted-IsFresh c x h here (ground (arith, new))) in
        record {
          ring = a.ring;
          replicas = a.same_replicas ∙ h.replicas;
          known = λ y there. elim (Bool-cases (text_beq x y)) [
            | inl same ↦ rw (← (text_beq_iff x y).0 same) here
            | inr other ↦ h.known y (ground (arith, a.loads y))
          ];
          planted = λ y k there below. elim (Bool-cases (text_beq x y)) [
            | inl same ↦
                let mine : x ≡ y = (text_beq_iff x y).0 same in
                rw (← mine) (a.planted k (omega (arith, h.replicas)))
            | inr other ↦
                kept_point c (add sum64 c x) x y (replica_point sum64 y k) a.grows
                  (h.planted y k (ground (arith, a.loads y)) below)
          ];
        }
  ]

  pub remove-IsComplete :
      (c : Consistent) (x : Text)
      → IsComplete sum64 IsKnown n c
      → IsKnown x
      → Returns (λ (_, c'). IsComplete sum64 IsKnown n c') (remove sum64 c x)
  remove-IsComplete c x h here =
      let (res, e, (_, r)) =
        Returns-inv (Removed sum64 x c) _ (remove-IsRemoved sum64 x c h.ring) in
      rw e (record {
        ring = IsRemoved-IsRing sum64 x c res.1 h.ring r (omega (arith, h.replicas));
        replicas = r.same_replicas ∙ h.replicas;
        known = λ y there. h.known y (ground (arith, r.loads y));
        planted = λ y k there below. elim (r.kept (replica_point sum64 y k)) [
          | inl same ↦ same ∙ h.planted y k (ground (arith, r.loads y)) below
          | inr (_, (j, under, at)) ↦ absurd (
              ground (
                arith,
                r.loads y,
                text_beq_refl x,
                ap (λ z. text_beq x z)
                    (apart y x k j (h.known y (ground (arith, r.loads y))) here (omega (arith, few))
                      under at).0,
              ))
        ];
      })

  -- Two complete rings that list the same hosts.
  module _ (c c' : Consistent) (h : IsComplete sum64 IsKnown n c)
      (h' : IsComplete sum64 IsKnown n c') (same : (y : Text) → listed c y ≡ listed c' y) where
    pub owned_there : (p : ℕ) (x : Text) → lookup p c.hosts ≡ some x → lookup p c'.hosts ≡ some x
    owned_there p x owned =
        let there = h.ring.spread.listed p x owned in
        let (k, below, at) = h.ring.spread.placed p x owned in
        ap (λ q. lookup q c'.hosts) at
        ∙ h'.planted x k (sym (same x) ∙ there) (omega (arith, h.replicas))
