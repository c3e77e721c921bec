-- ===== src/Ring/Invariant.antt =====
-- What holds of a ring between two calls, when no two replicas share a point.
use go_dispatch.Base.Keys.{Text, text_eq, nat_eq}
use go_dispatch.Base.Maps.{Map, lookup, IsMap}
use go_dispatch.Base.Sorting.{IsSorted}
use go_dispatch.Base.Shared.{
  Bool, ℕ, ◌<◌, ◌≡◌, true, some, none, is_some, length, count, if◌then◌else◌, ◌⊎◌, List,
}
use go_dispatch.Ring.{Consistent, replica_point}

-- The point `p` is one of the first `n` replicas of the host.
abbrev pub IsReplica : (Text → ℕ) → Text → ℕ → ℕ → Type 0
IsReplica sum64 host n p = (i : ℕ) × (i < n) × (p ≡ replica_point sum64 host i)

abbrev pub holds : Map ℕ Text → ℕ → ℕ
holds hosts p = if is_some (lookup p hosts) then 1 else 0

-- The slice holds each point of the map once.
pub record IsIndex (hosts : Map ℕ Text) (points : List ℕ) : Type 0 where
  pub is_map : IsMap hosts
  pub counts : (p : ℕ) → count p points ≡ holds hosts p
  pub size : length points ≡ length hosts

-- The points and their owners, whatever the order of the slice.
pub record IsSpread (sum64 : Text → ℕ) (c : Consistent) : Type 0 where
  pub index : IsIndex c.hosts c.sorted_set
  pub loads_map : IsMap c.load_map
  pub listed : (p : ℕ) (x : Text) → lookup p c.hosts ≡ some x → is_some (lookup x c.load_map) ≡ true
  pub placed : (p : ℕ) (x : Text) → lookup p c.hosts ≡ some x → IsReplica sum64 x c.replicas p

pub record IsRing (sum64 : Text → ℕ) (c : Consistent) : Type 0 where
  pub spread : IsSpread sum64 c
  pub sorted : IsSorted c.sorted_set

-- `m'` has the points of `m` and possibly more, which belong to `x`.
abbrev pub Grows : Text → Map ℕ Text → Map ℕ Text → Type 0
Grows x m m' = (p : ℕ) → (lookup p m' ≡ lookup p m) ⊎ ((lookup p m ≡ none) × (lookup p m' ≡ some x))

abbrev pub listed : Consistent → Text → Bool
listed c y = is_some (lookup y c.load_map)
