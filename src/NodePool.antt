-- ===== src/NodePool.antt =====
-- nodepool/nodepool.go: the nodes of the cluster as one node sees them, and the hash ring that it
-- keeps for them. What the driver and the clock answer enters as arguments.
pub mod Diff
pub mod Listing
pub mod Update
pub mod Tracking
pub mod Eligible
pub mod Life
pub mod Complete
pub mod Converging
pub mod Starting
pub mod Serving
pub mod Counting
use go_dispatch.Base.Int.{ℤ, pos, negsuc, ◌+ℤ◌, ltb_ℤ}
use go_dispatch.Base.Keys.{Text, text_eq, text_beq, text_lt}
use go_dispatch.Base.Maps.{Map, lookup, insert}
use go_dispatch.Base.Outcome.{Outcome, ok, err, panic, out_of_fuel, ◌>>=◌}
use go_dispatch.Base.Sorting.{sort}
use go_dispatch.Points.{Error}
use go_dispatch.Ring.{
  Consistent, new, with_replicas, with_default_load, add, remove, get, get_least, inc, done,
  is_empty, reset_loads,
}
use go_dispatch.Base.Shared.{
  ltb, leb, ◌==◌, if◌then◌else◌, ==_iff, Bool-cases, Option-cases, is_some, All-mono, All-set,
  All-get_elem?, length-set, length, get_elem?, set, take, drop, remove_nth, All, length-append,
  All-append, get_elem?-lt, length-remove_nth, All-remove_nth, ◌!◌, get_elem?-!, count,
  count-append, count-remove_nth, count_index, count-pos, count-zero, count_by, count_by-append,
  count_by-set, count_by-find, ℕ, zero, suc, ◌+◌, ◌-◌, ◌*◌, ◌/◌, ◌%◌, ◌^◌, ◌≤◌, ◌<◌, ◌≡◌, refl, sym,
  ap, ◌∙◌, ◌≢◌, ◌↔◌, ◌⊎◌, inl, inr, Bool, true, false, not, ◌&&◌, ◌||◌, Option, none, some, List,
  [], ◌∷◌, ◌++◌, map, arith,
}

-- NodePoolStateSteady and NodePoolStateUpgrade.
pub data PoolState : Type 0 where
  steady upgrade : PoolState

pub data PoolError : Type 0 where
  ring_no_hosts is_upgrading : PoolError
  driver_failed : ℕ → PoolError

-- The fields that change or that decide. `nodes` is `none` before the first update; times are
-- numbers that the clock gives.
pub record NodePool : Type 0 where
  pub node_id : Text
  pub nodes : Option Consistent
  pub hash_replicas : ℕ
  pub hash_load : ℤ
  pub pre_nodes : List Text
  pub capacity_load : Bool
  pub last_update : Option ℕ
  pub state : Option PoolState
  pub stop_chan : ℕ

-- The pool that `NewNodePool` makes, with the option WithCapacityLoad or without; it also calls
-- Init of the driver, which is `init` of Driver.
unfoldable pub new_node_pool : ℕ → Bool → NodePool
new_node_pool hash_replicas capacity_load = record {
  node_id = [];
  nodes = none;
  hash_replicas = hash_replicas;
  hash_load = pos 125;
  pre_nodes = [];
  capacity_load = capacity_load;
  last_update = none;
  state = none;
  stop_chan = 0;
}

-- `int` in `nodeCount[node]`, which is 0 for a node that has no entry.
abbrev pub count_of : Text → Map Text ℤ → ℤ
count_of x m = elim (lookup x m) [ none ↦ pos 0 | some n ↦ n ]

-- One loop of diffNodes: every node of the slice adds `delta` to its count.
tally : ℤ → List Text → Map Text ℤ → Map Text ℤ
tally delta [] m = m
tally delta (x ∷ xs) m = tally delta xs (insert x (count_of x m +ℤ delta) m)

abbrev positive : ℤ → Bool
positive n = ltb_ℤ (pos 0) n

abbrev negative : ℤ → Bool
negative n = ltb_ℤ n (pos 0)

select : (ℤ → Bool) → Map Text ℤ → List Text
select test [] = []
select test ((x, n) ∷ m) = if test n then x ∷ select test m else select test m

-- The nodes that were added and those that were removed. Go leaves their order open.
unfoldable pub diff_nodes : List Text → List Text → List Text × List Text
unfolding tally select
diff_nodes current_nodes new_nodes =
    let node_count = tally (negsuc 0) current_nodes (tally (pos 1) new_nodes []) in
    (select positive node_count, select negative node_count)

lift {ℓ} : {A : Type ℓ} → Outcome Error A → Outcome PoolError A
lift (ok a) = ok a
lift (err e) = err ring_no_hosts
lift panic = panic
lift out_of_fuel = out_of_fuel

-- `np.state.Load().(string)` panics before the first store.
when_steady {ℓ} : {A : Type ℓ} → Option PoolState → Outcome PoolError A → Outcome PoolError A
when_steady none answer = panic
when_steady (some steady) answer = answer
when_steady (some upgrade) answer = err is_upgrading

abbrev pub is_nil {ℓ} : {A : Type ℓ} → List A → Bool
is_nil [] = true
is_nil (_ ∷ _) = false

module _ (sum64 : Text → ℕ) where
  pub remove_all : List Text → Consistent → Outcome PoolError Consistent
  remove_all [] c = ok c
  remove_all (x ∷ xs) c = lift (remove sum64 c x) >>= λ (_, c'). remove_all xs c'

  pub add_all : List Text → Consistent → Consistent
  add_all [] c = c
  add_all (x ∷ xs) c = add_all xs (add sum64 c x)

  -- `np.Nodes`, made by `New` if there is none.
  abbrev pub ring_of : NodePool → Consistent
  ring_of np = elim np.nodes [
    | some c ↦ c
    | none ↦ new (with_replicas np.hash_replicas ∷ with_default_load np.hash_load ∷ [])
  ]

  unfoldable pub update_hash_ring : ℕ → NodePool → List Text → Outcome PoolError NodePool
  unfolding remove_all add_all lift
  update_hash_ring now np nodes =
      let ring = ring_of np in
      let sorted = sort text_lt nodes in
      let (added, removed) = diff_nodes np.pre_nodes sorted in
      let changed : Outcome PoolError NodePool = do
        c ← remove_all removed ring
        ok (record np {
          nodes = some (add_all added c);
          pre_nodes = sorted;
          last_update = some now;
          state = some upgrade;
        })
      in if is_nil added && is_nil removed
        then ok (record np { nodes = some ring; state = some steady })
        else changed

  -- `none` for a ring that is missing gives the empty name, as an empty ring does.
  unfoldable pub get_host : NodePool → Text → Outcome PoolError (Text × NodePool)
  unfolding lift when_steady
  get_host np key = elim np.nodes [
    | none ↦ ok ([], np)
    | some c ↦
        let least : Outcome PoolError (Text × NodePool) = do
          (host, c') ← lift (get_least sum64 c key)
          ok (host, record np { nodes = some c' })
        in let plain : Outcome PoolError (Text × NodePool) = do
          host ← lift (get sum64 c key)
          ok (host, np)
          in if is_empty c
            then ok ([], np)
            else when_steady np.state (if np.capacity_load then least else plain)
  ]

  -- `np.Nodes.Inc` and `np.Nodes.Done`, which panic on a ring that is missing.
  on_ring : (Consistent → Consistent) → NodePool → Outcome PoolError NodePool
  on_ring f np = elim np.nodes [ none ↦ panic | some c ↦ ok (record np { nodes = some (f c) }) ]

  unfoldable pub is_eligible : NodePool → Text → Outcome PoolError (Bool × NodePool)
  unfolding on_ring
  is_eligible np key = do
    (target, np') ← get_host np key
    let counted = on_ring (λ c. inc c target) np'
    np'' ← if np.capacity_load then counted else ok np'
    ok (text_beq np.node_id target, np'')

  unfoldable pub decrease_load_by_key : NodePool → Text → Outcome PoolError NodePool
  unfolding on_ring
  decrease_load_by_key np key =
      let released : Outcome PoolError NodePool = do
        (target, np') ← get_host np key
        on_ring (λ c. done c target) np'
      in if np.capacity_load then released else ok np

  unfoldable pub pool_reset_loads : NodePool → Outcome PoolError NodePool
  unfolding on_ring
  pool_reset_loads np = on_ring reset_loads np
