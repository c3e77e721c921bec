-- ===== src/Ring.antt =====
-- consistenthash/consistenthash.go: the hash ring with its points, its hosts and their loads.
-- The hash function (xxhash, another repository) is the parameter `sum64`.
pub mod Invariant
pub mod Owner
pub mod Adding
pub mod Removing
pub mod Loads
pub mod Least
pub mod Wip
pub mod Bounded
pub mod Listing
pub mod Disruption
pub mod Complete
pub mod Canonical
pub mod Edits
use go_dispatch.Base.Int.{ℤ, pos, negsuc, sub_ℕ, ◌+ℤ◌, ◌-ℤ◌, ltb_ℤ, wrap64}
use go_dispatch.Base.Keys.{Text, text_eq, nat_eq, decimal}
use go_dispatch.Base.Maps.{Map, lookup, insert, erase}
use go_dispatch.Base.Outcome.{Outcome, ok, err, panic, out_of_fuel, ◌>>=◌, or_panic}
use go_dispatch.Base.Sorting.{sort}
use go_dispatch.Points.{Error, no_hosts, search, del_slice}
use go_dispatch.Base.Shared.{
  ℕ, zero, suc, ◌+◌, ◌*◌, ◌/◌, Bool, true, false, List, [], ◌∷◌, ◌++◌, map, Option, none, some, ltb,
  leb, ◌==◌, if◌then◌else◌, length, get_elem?,
}

pub record Host : Type 0 where
  pub name : Text
  pub load : ℤ

-- `default_load` is in hundredths; the source writes it and never reads it.
pub record Consistent : Type 0 where
  pub hosts : Map ℕ Text
  pub sorted_set : List ℕ
  pub load_map : Map Text Host
  pub total_load : ℤ
  pub replicas : ℕ
  pub default_load : ℤ

abbrev pub replication_factor : ℕ
replication_factor = 50

-- An option changes the ring that `New` builds.
abbrev pub Opt : Type 0
Opt = Consistent → Consistent

apply_opts : List Opt → Consistent → Consistent
apply_opts [] c = c
apply_opts (opt ∷ opts) c = apply_opts opts (opt c)

unfoldable pub new : List Opt → Consistent
unfolding apply_opts
new opts = apply_opts opts (record {
  hosts = [];
  sorted_set = [];
  load_map = [];
  total_load = pos 0;
  replicas = replication_factor;
  default_load = pos 0;
})

-- A number below 0 gives a loop of no rounds in the source, as 0 does here.
unfoldable pub with_replicas : ℕ → Opt
with_replicas number c = record c { replicas = number }

-- The assignment under the guard is overwritten by the one after it, as in the source.
unfoldable pub with_default_load : ℤ → Opt
with_default_load load c =
    let guarded = if ltb_ℤ load (pos 100) then record c { default_load = pos 100 } else c in
    record guarded { default_load = load }

unfoldable pub get_sorted_set : Consistent → List ℕ
get_sorted_set c = c.sorted_set

unfoldable pub is_empty : Consistent → Bool
is_empty c = length c.hosts == 0

clear_loads : Map Text Host → Map Text Host
clear_loads [] = []
clear_loads ((name, host) ∷ m) = (name, record host { load = pos 0 }) ∷ clear_loads m

unfoldable pub reset_loads : Consistent → Consistent
unfolding clear_loads
reset_loads c = record c { load_map = clear_loads c.load_map; total_load = pos 0 }

unfoldable pub update_load : Consistent → Text → ℤ → Consistent
update_load c host load = elim (lookup host c.load_map) [
  | none ↦ c
  | some h ↦ record c {
    load_map = insert host (record h { load = load }) c.load_map;
    total_load = wrap64 (wrap64 (c.total_load -ℤ h.load) +ℤ load);
  }
]

-- `atomic.AddInt64` on the host's load and on the total.
add_load : Consistent → Text → ℤ → Consistent
add_load c host delta = elim (lookup host c.load_map) [
  | none ↦ c
  | some h ↦ record c {
    load_map = insert host (record h { load = wrap64 (h.load +ℤ delta) }) c.load_map;
    total_load = wrap64 (c.total_load +ℤ delta);
  }
]

unfoldable pub inc : Consistent → Text → Consistent
unfolding add_load
inc c host = add_load c host (pos 1)

unfoldable pub done : Consistent → Text → Consistent
unfolding add_load
done c host = add_load c host (negsuc 0)

unfoldable pub hosts_of : Consistent → List Text
hosts_of c = map (λ (entry : Text × Host). entry.0) c.load_map

unfoldable pub get_loads : Consistent → Map Text ℤ
get_loads c = map (λ (entry : Text × Host). (entry.0, entry.1.load)) c.load_map

-- Division of an int64 by a positive number, towards 0.
abbrev quot : ℤ → ℕ → ℤ
quot (pos a) n = pos (a / n)
quot (negsuc a) n = sub_ℕ 0 (suc a / n)

-- `math.Ceil(x * 1.25)`, exact below 2^50.
abbrev ceil_scaled : ℤ → ℤ
ceil_scaled (pos a) = pos ((5 * a + 3) / 4)
ceil_scaled (negsuc a) = sub_ℕ 0 (5 * suc a / 4)

abbrev one_at_least : ℤ → ℤ
one_at_least (pos zero) = pos 1
one_at_least a = a

-- The bound on one host's load for a total over `n` hosts; without a host the division panics.
unfoldable pub load_bound : ℤ → ℕ → Outcome Error ℤ
load_bound total zero = panic
load_bound total (suc n) = ok (ceil_scaled (one_at_least (quot total (suc n))))

abbrev is_zero : ℤ → Bool
is_zero (pos zero) = true
is_zero a = false

unfoldable pub max_load : Consistent → Outcome Error (ℤ × Consistent)
max_load c = do
  let c' = if is_zero c.total_load then record c { total_load = pos 1 } else c
  bound ← load_bound c'.total_load (length c.load_map)
  ok (bound, c')

-- The total after the check for calls of `Done` that were too many.
unfoldable pub clamp : Consistent → Consistent
clamp c = if ltb_ℤ c.total_load (pos 0) then record c { total_load = pos 0 } else c

abbrev pub fits : ℤ → ℤ → Bool
fits load bound = if ltb_ℤ bound (load +ℤ pos 1) then false else true

pub within : Map Text Host → Text → ℤ → Bool
within m host bound = elim (lookup host m) [ none ↦ false | some h ↦ fits h.load bound ]

unfoldable pub load_ok : Consistent → Text → Outcome Error (Bool × Consistent)
unfolding within
load_ok c host = do
  let c' = clamp c
  bound ← load_bound (wrap64 (c'.total_load +ℤ pos 1)) (length c'.load_map)
  ok (within c'.load_map host bound, c')

-- `host, ok := c.hosts[c.sortedSet[i]]` with the error where no host is found.
pub host_at : Consistent → ℕ → Outcome Error Text
host_at c i = do
  point ← or_panic (get_elem? c.sorted_set i)
  elim (lookup point c.hosts) [ none ↦ err no_hosts | some host ↦ ok host ]

-- The loop of GetLeast has no bound in the source.
get_least_loop : ℕ → Consistent → ℕ → Outcome Error (Text × Consistent)
get_least_loop zero c i = out_of_fuel
get_least_loop (suc fuel) c i = host_at c i >>= λ host. load_ok c host >>= λ (fine, c').
    let rest = get_least_loop fuel c' (if leb (length c.hosts) (i + 1) then 0 else i + 1) in
    if fine then ok (host, c') else rest

or_empty : Option Text → Text
or_empty none = []
or_empty (some host) = host

module _ (sum64 : Text → ℕ) where
  -- The point of replica `i` of a host: the hash of "%s%d".
  unfoldable pub replica_point : Text → ℕ → ℕ
  replica_point host i = sum64 (host ++ decimal i)

  -- The rounds of Add's loop that are left, from round `i` on.
  pub add_replicas : Text → ℕ → ℕ → Consistent → Consistent
  add_replicas host zero i c = c
  add_replicas host (suc left) i c = add_replicas host left (i + 1) (record c {
    hosts = insert (replica_point host i) host c.hosts;
    sorted_set = c.sorted_set ++ replica_point host i ∷ [];
  })

  unfoldable pub add : Consistent → Text → Consistent
  unfolding add_replicas
  add c host = elim (lookup host c.load_map) [
    | some _ ↦ c
    | none ↦
        let listed = record c {
          load_map = insert host (record { name = host; load = pos 0 }) c.load_map;
        } in
        let grown = add_replicas host c.replicas 0 listed in
        record grown { sorted_set = sort ltb grown.sorted_set }
  ]

  remove_replicas : Text → ℕ → ℕ → Consistent → Outcome Error Consistent
  remove_replicas host zero i c = ok c
  remove_replicas host (suc left) i c = do
    let h = replica_point host i
    points ← del_slice c.sorted_set h
    remove_replicas host left (i + 1) (record c { hosts = erase h c.hosts; sorted_set = points })

  -- The loop runs over the constant, not over the ring's own number of replicas.
  unfoldable pub remove : Consistent → Text → Outcome Error (Bool × Consistent)
  unfolding remove_replicas
  remove c host = do
    c' ← remove_replicas host replication_factor 0 c
    ok (true, record c' { load_map = erase host c'.load_map })

  unfoldable pub get : Consistent → Text → Outcome Error Text
  unfolding or_empty
  get c key =
      let found : Outcome Error Text = do
        idx ← search c.sorted_set (sum64 key)
        point ← or_panic (get_elem? c.sorted_set idx)
        ok (or_empty (lookup point c.hosts))
      in if length c.hosts == 0 then err no_hosts else found

  unfoldable pub get_least : Consistent → Text → Outcome Error (Text × Consistent)
  unfolding get_least_loop host_at
  get_least c key =
      let found : Outcome Error (Text × Consistent) = do
        idx ← search c.sorted_set (sum64 key)
        get_least_loop (length c.sorted_set) c idx
      in if length c.hosts == 0 then err no_hosts else found
