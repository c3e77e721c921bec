-- ===== src/Ring/Edits.antt =====
-- Rings after many calls of Add and Remove: which hosts they list, and what Get answers.
use go_dispatch.Ring.Canonical.{get-canonical}
use mathlib.Core.Path.{subst}
use go_dispatch.Ring.Owner.{get-IsOwner, IsOwner}
use go_dispatch.Ring.Listing.{remove-listed, Unlisted, add-listed}
use go_dispatch.Ring.Invariant.{listed}
use go_dispatch.Base.Maps.{Map, lookup}
use go_dispatch.Ring.Complete.{remove-IsComplete, add-IsComplete, IsComplete, NoCollisions}
use go_dispatch.Ring.{
  remove, replica_point, get, add, replication_factor, with_replicas, new, Consistent,
}
use go_dispatch.Base.Shared.{
  if◌then◌else◌, length, All, ℕ, ◌≤◌, ◌<◌, ◌≡◌, refl, sym, ap, ◌∙◌, Bool, true, false, some, List,
  [], ◌∷◌, arith,
}
use go_dispatch.Base.Keys.{text_beq, Text, text_eq, nat_eq}
use go_dispatch.Base.Outcome.{Returns-inv, Returns-both, Returns, ok, Outcome, ◌>>=◌}
use go_dispatch.Points.{Error}

-- The calls that change which hosts a ring lists.
pub data Edit : Type 0 where
  joins leaves : Text → Edit

abbrev pub host_of : Edit → Text
host_of (joins x) = x
host_of (leaves x) = x

abbrev pub AllOf : (Text → Type 0) → List Edit → Type 0
AllOf IsKnown edits = All (λ e. IsKnown (host_of e)) edits

-- Whether the last call for the host `y` was an Add; without one it is as before.
abbrev pub last_edit : Text → Bool → List Edit → Bool
last_edit y before [] = before
last_edit y before (joins x ∷ edits) = last_edit y (if text_beq x y then true else before) edits
last_edit y before (leaves x ∷ edits) = last_edit y (if text_beq x y then false else before) edits

module _ (sum64 : Text → ℕ) where
  abbrev pub edit : Consistent → Edit → Outcome Error Consistent
  edit c (joins x) = ok (add sum64 c x)
  edit c (leaves x) = remove sum64 c x >>= λ (_, c'). ok c'

  -- The calls, one after the other.
  abbrev pub edited : List Edit → Consistent → Outcome Error Consistent
  edited [] c = ok c
  edited (e ∷ edits) c = edit c e >>= λ c'. edited edits c'

-- A new ring of `n` replicas for each host to come.
abbrev pub new_ring : ℕ → Consistent
new_ring n = new (with_replicas n ∷ [])

module _ (sum64 : Text → ℕ) (IsKnown : Text → Type 0) (apart : NoCollisions sum64 IsKnown) (n : ℕ)
    (few : n ≤ replication_factor) where
  new_ring-IsComplete : IsComplete sum64 IsKnown n (new_ring n)
  unfolding new with_replicas lookup
  new_ring-IsComplete = record {
    ring = record {
      spread = record {
        index = record { is_map = tt; counts = λ p. refl; size = refl };
        loads_map = tt;
        listed = λ p x e. absurd cc;
        placed = λ p x e. absurd cc;
      };
      sorted = tt;
    };
    replicas = refl;
    known = λ y e. absurd cc;
    planted = λ y k e. absurd cc;
  }

  -- A complete ring that lists just the hosts whose last call was an Add.
  abbrev Lists : Consistent → List Edit → Consistent → Type 0
  Lists c edits c' =
      IsComplete sum64 IsKnown n c' × ((y : Text) → listed c' y ≡ last_edit y (listed c y) edits)

  edited-Lists :
      (edits : List Edit) (c : Consistent)
      → IsComplete sum64 IsKnown n c
      → AllOf IsKnown edits
      → Returns (Lists c edits) (edited sum64 edits c)
  edited-Lists [] c h known = (h, λ y. refl)
  edited-Lists (joins x ∷ edits) c h known =
      let c' = add sum64 c x in
      let (_, here) = add-listed sum64 x c h.ring.sorted in
      let (c'', e, (h'', same)) =
        Returns-inv (Lists c' edits) _ (
          edited-Lists edits c' (add-IsComplete sum64 IsKnown apart n few c x h known.0) known.1) in
      rw e (h'', λ y. same y ∙ ap (λ b. last_edit y b edits) (here y))
  edited-Lists (leaves x ∷ edits) c h known =
      let (r, e, (h', (_, here))) =
        Returns-inv (λ r. IsComplete sum64 IsKnown n r.1 × Unlisted sum64 x c r) _
          (Returns-both _ _ (remove sum64 c x)
            (remove-IsComplete sum64 IsKnown apart n few c x h known.0)
            (remove-listed sum64 x c h.ring.sorted)) in
      let (c'', e', (h'', same)) =
        Returns-inv (Lists r.1 edits) _ (edited-Lists edits r.1 h' known.1) in
      rw (e, e') (h'', λ y. same y ∙ ap (λ b. last_edit y b edits) (here y))

  -- A host with a replica has a point on the ring.
  some_point :
      (c : Consistent) (y : Text)
      → IsComplete sum64 IsKnown n c
      → 0 < n
      → listed c y ≡ true
      → 0 < length c.hosts
  unfolding lookup
  some_point c y h some_replica there = go c.hosts (h.planted y 0 there some_replica)
    where
      go : (m : Map ℕ Text) → lookup (replica_point sum64 y 0) m ≡ some y → 0 < length m
      go [] e = absurd cc
      go (_ ∷ m) e = omega arith

  -- Two rings that are equal for Get: they list just the hosts whose last call was an Add, and
  -- give every key the same answer, which where a host is listed is the owner of the first point
  -- behind the key.
  abbrev pub IsSameRing : List Edit → Consistent → Consistent → Type 0
  IsSameRing edits c c' =
      ((y : Text)
        → (listed c y ≡ last_edit y false edits) × (listed c' y ≡ last_edit y false edits))
      × ((key : Text) → get sum64 c key ≡ get sum64 c' key)
      × ((key y : Text)
          → last_edit y false edits ≡ true
          → Returns (λ x. IsOwner c.hosts (sum64 key) x × IsOwner c'.hosts (sum64 key) x)
              (get sum64 c key))

  -- Two sequences of calls of Add and Remove, for known hosts, on new rings of as many replicas, at
  -- least one and at most 50, where no two of the first 50 replicas of known hosts share a point:
  -- no call fails, and each ring lists just the hosts whose last call was an Add. Where these are
  -- the same hosts in both sequences, Get gives every key the same answer on both rings, whatever
  -- the order of the calls; and where there is a host, this answer is a host with the first point
  -- clockwise from the key, on both.
  pub edited-canonical :
      (edits edits' : List Edit)
      → 0 < n
      → AllOf IsKnown edits
      → AllOf IsKnown edits'
      → ((y : Text) → last_edit y false edits ≡ last_edit y false edits')
      → Returns
          (λ c. Returns (IsSameRing edits c) (edited sum64 edits' (new_ring n)))
          (edited sum64 edits (new_ring n))
  unfolding new with_replicas lookup
  edited-canonical edits edits' some_replica known known' same =
      let (c, e, (h, lists)) =
        Returns-inv (Lists (new_ring n) edits) _
          (edited-Lists edits (new_ring n) new_ring-IsComplete known) in
      let (c', e', (h', lists')) =
        Returns-inv (Lists (new_ring n) edits') _
          (edited-Lists edits' (new_ring n) new_ring-IsComplete known') in
      let mine : (y : Text) → listed c y ≡ last_edit y false edits = λ y. lists y ∙ fresh y edits in
      let alike : (y : Text) → listed c y ≡ listed c' y =
        λ y. mine y ∙ same y ∙ sym (lists' y ∙ fresh y edits') in
      rw (e, e')
        (
          λ y. (mine y, sym (alike y) ∙ mine y),
          get-canonical sum64 IsKnown apart n few c c' h h' alike,
          λ key y there.
              owners c c' h h' alike key (some_point c y h some_replica (mine y ∙ there))
                (some_point c' y h' some_replica (sym (alike y) ∙ mine y ∙ there)),
        )
    where
      fresh :
          (y : Text) (edits : List Edit)
          → last_edit y (listed (new_ring n) y) edits ≡ last_edit y false edits
      fresh y edits = refl

      owners :
          (c c' : Consistent) (h : IsComplete sum64 IsKnown n c)
          (h' : IsComplete sum64 IsKnown n c') (alike : (y : Text) → listed c y ≡ listed c' y)
          (key : Text)
          → 0 < length c.hosts
          → 0 < length c'.hosts
          → Returns
              (λ x. IsOwner c.hosts (sum64 key) x × IsOwner c'.hosts (sum64 key) x)
              (get sum64 c key)
      owners c c' h h' alike key some_host some_host' =
          Returns-both _ _ (get sum64 c key) (get-IsOwner sum64 c h.ring key some_host) (
            subst (Returns (IsOwner c'.hosts (sum64 key)))
              (sym (get-canonical sum64 IsKnown apart n few c c' h h' alike key))
              (get-IsOwner sum64 c' h'.ring key some_host'))
