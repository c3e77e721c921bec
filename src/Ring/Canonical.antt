-- ===== src/Ring/Canonical.antt =====
-- Complete rings that list the same hosts give the same answers.
use go_dispatch.Base.Outcome.{err, ok, or_panic, ◌>>=◌}
use go_dispatch.Base.Sorting.{sorted_unique}
use go_dispatch.Base.Maps.{lookup}
use go_dispatch.Ring.Invariant.{listed}
use go_dispatch.Points.{search, no_hosts, Error}
use go_dispatch.Ring.Complete.{owned_there, IsComplete, NoCollisions}
use go_dispatch.Base.Outcome.{Outcome}
use go_dispatch.Base.Keys.{Text, text_eq, nat_eq}
use go_dispatch.Ring.{or_empty, Consistent, replication_factor, get}
use mathlib.Core.Path.{fun_ext, ap₂}
use go_dispatch.Base.Shared.{
  ◌==◌, if◌then◌else◌, Option-cases, is_some, length, get_elem?, ℕ, ◌≤◌, ◌≡◌, sym, ap, ◌∙◌, inl,
  inr, Bool, Option, List,
}

-- What Get reads of a ring: whether it has points, the slice, and the owners.
abbrev get_from : Bool → List ℕ → (ℕ → Option Text) → ℕ → Outcome Error Text
get_from empty points owner h =
    let found : Outcome Error Text = do
      idx ← search points h
      point ← or_panic (get_elem? points idx)
      ok (or_empty (owner point))
    in if empty then err no_hosts else found

module _ (sum64 : Text → ℕ) (IsKnown : Text → Type 0) (apart : NoCollisions sum64 IsKnown) (n : ℕ)
    (few : n ≤ replication_factor) (c c' : Consistent) (h : IsComplete sum64 IsKnown n c)
    (h' : IsComplete sum64 IsKnown n c') (same : (y : Text) → listed c y ≡ listed c' y) where
  same_owner : (p : ℕ) → lookup p c.hosts ≡ lookup p c'.hosts
  same_owner p = elim (Option-cases (lookup p c.hosts)) [
    | inr (x, owned) ↦ owned ∙ sym (owned_there sum64 IsKnown apart n few c c' h h' same p x owned)
    | inl free ↦ elim (Option-cases (lookup p c'.hosts)) [
      | inl free' ↦ free ∙ sym free'
      | inr (x, owned) ↦
          let back =
            owned_there sum64 IsKnown apart n few c' c h' h (λ y. sym (same y)) p x owned in
          cc
    ]
  ]

  same_slice : c.sorted_set ≡ c'.sorted_set
  same_slice = sorted_unique c.sorted_set c'.sorted_set h.ring.sorted h'.ring.sorted λ p.
      h.ring.spread.index.counts p
      ∙ ap (λ o. if is_some o then 1 else 0) (same_owner p)
      ∙ sym (h'.ring.spread.index.counts p)

  same_size : length c.hosts ≡ length c'.hosts
  same_size = sym h.ring.spread.index.size ∙ ap length same_slice ∙ h'.ring.spread.index.size

  -- Two rings of as many replicas, at most 50, that list the same hosts, and where each replica of
  -- a listed host has its point, give every key the same answer, whatever the order in which the
  -- hosts came and went. No two replicas of the hosts share a point.
  pub get-canonical : (key : Text) → get sum64 c key ≡ get sum64 c' key
  unfolding get or_empty
  get-canonical key =
      ap₂ (λ m points. get_from (m == 0) points (λ p. lookup p c.hosts) (sum64 key)) same_size
        same_slice
      ∙ ap (λ owner. get_from (length c'.hosts == 0) c'.sorted_set owner (sum64 key))
          (fun_ext same_owner)
