-- ===== src/Tests.antt =====
-- Data for the examples: a hash, and rings of one host.
pub mod Rings
pub mod Pools
pub mod Fields
pub mod Schedules
pub mod Specs
pub mod Times
pub mod Nodes
pub mod Wrappers
pub mod Delays
pub mod Drivers
pub mod Clusters
pub mod Beats
pub mod Stopping
pub mod Counting
use go_dispatch.Base.Keys.{text_beq}
use go_dispatch.Base.Keys.{text_eq, nat_eq, decimal}
use go_dispatch.Base.Int.{pos}
use go_dispatch.Ring.Adding.{IsFresh}
use go_dispatch.Ring.Invariant.{IsRing}
use go_dispatch.Base.Keys.{codes, Text}
use go_dispatch.Ring.{Consistent, replica_point}
use go_dispatch.Base.Maps.{lookup}
use go_dispatch.Base.Shared.{
  ltb, leb, ◌==◌, if◌then◌else◌, ==_iff, Bool-cases, Option-cases, is_some, length, get_elem?, set,
  take, drop, remove_nth, All, length-append, All-append, get_elem?-lt, length-remove_nth,
  All-remove_nth, ◌!◌, get_elem?-!, count, count-append, count-remove_nth, count_index, count-pos,
  count-zero, count_by, count_by-append, count_by-set, count_by-find, ℕ, zero, suc, ◌+◌, ◌-◌, ◌*◌,
  ◌/◌, ◌%◌, ◌^◌, ◌≤◌, ◌<◌, ◌≡◌, refl, sym, ap, ◌∙◌, ◌≢◌, ◌↔◌, ◌⊎◌, inl, inr, Bool, true, false, not,
  ◌&&◌, ◌||◌, Option, none, some, List, [], ◌∷◌, ◌++◌, map, arith,
}

-- A hash of texts for the examples, in which short texts differ.
unfoldable pub weigh : Text → ℕ
weigh [] = 0
weigh (c ∷ cs) = c + 256 * weigh cs

abbrev pub host_a : Text
host_a = codes "a"

abbrev pub host_b : Text
host_b = codes "b"

-- A ring that lists one host with a load, at one point.
abbrev pub ring_at : ℕ → ℕ → ℕ → Consistent
ring_at p load replicas = record {
  hosts = (p, host_a) ∷ [];
  sorted_set = p ∷ [];
  load_map = (host_a, record { name = host_a; load = pos load }) ∷ [];
  total_load = pos load;
  replicas = replicas;
  default_load = pos 0;
}

pub owner_is_a :
    (p q : ℕ) (x : Text) → lookup q ((p, host_a) ∷ []) ≡ some x → (host_a ≡ x) × (q ≡ p)
unfolding lookup text_beq
owner_is_a p q x e = (ground (arith, e), ground (arith, e))

pub ring_at-IsRing :
    (p load replicas i : ℕ)
    → i < replicas
    → p ≡ replica_point weigh host_a i
    → IsRing weigh (ring_at p load replicas)
unfolding lookup text_beq
ring_at-IsRing p load replicas i h at = record {
  spread = record {
    index = record { is_map = (refl, tt); counts = λ q. ground arith; size = refl };
    loads_map = (refl, tt);
    listed = λ q x e. let mine = (owner_is_a p q x e).0 in rw (← mine) refl;
    placed = λ q x e. let (mine, here) = owner_is_a p q x e in rw (← mine) (i, h, here ∙ at);
  };
  sorted = (tt, tt);
}

-- The point of the first replica of `a`.
abbrev pub point_a : ℕ
point_a = 12385

abbrev pub ring_a : Consistent
ring_a = ring_at point_a 3 1

pub ring_a-IsRing : IsRing weigh ring_a
unfolding weigh replica_point decimal
ring_a-IsRing = ring_at-IsRing point_a 3 1 0 (omega arith) refl

-- A test that holds below `n`.
abbrev pub all_below : ℕ → (ℕ → Bool) → Bool
all_below zero test = true
all_below (suc n) test = let rest = all_below n test in test n && rest

pub all_below-true :
    (n : ℕ) (test : ℕ → Bool) (k : ℕ) → all_below n test ≡ true → k < n → test k ≡ true
all_below-true zero test k h lt = absurd (omega arith)
all_below-true (suc n) test k h lt = elim (Bool-cases (k == n)) [
  | inl same ↦ ground (arith, ap test ((==_iff k n).0 same))
  | inr other ↦ all_below-true n test k (ground arith) (ground arith)
]

pub host_b-IsFresh : IsFresh weigh ring_a host_b
unfolding weigh replica_point decimal lookup
host_b-IsFresh = record { absent = absent; distinct = λ i j h k. absurd (omega arith) }
  where
    absent : (i : ℕ) → i < 1 → lookup (replica_point weigh host_b i) ring_a.hosts ≡ none
    absent zero h = refl
    absent (suc i) h = absurd (omega arith)
