-- ===== src/NodePool/Starting.antt =====
-- nodepool/nodepool.go: the whole of Start, with its wait for the steady state, and the getters.
use go_dispatch.NodePool.{steady, upgrade}
use go_dispatch.NodePool.Life.{refreshes, pool_start, Answer}
use go_dispatch.Base.Keys.{Text}
use go_dispatch.Base.Int.{ℤ}
use go_dispatch.NodePool.{PoolState, PoolError, NodePool}
use go_dispatch.Base.Outcome.{ok, or_panic, Outcome, ◌>>=◌}
use go_dispatch.Base.Shared.{ℕ, Option, none, some, List, [], ◌∷◌}

-- `GetState`, which panics before the first store.
abbrev pub get_state : NodePool → Outcome PoolError PoolState
get_state np = or_panic np.state

-- `GetLastNodesUpdateTime`, which panics where no update has changed the ring yet.
unfoldable pub get_last_nodes_update_time : NodePool → Outcome PoolError ℕ
get_last_nodes_update_time np = or_panic np.last_update

-- `WithHashLoad`; a load is in hundredths.
unfoldable pub with_hash_load : ℤ → NodePool → NodePool
with_hash_load load np = record np { hash_load = load }

-- Where Start is: it returned an error, it returned none, or it waits.
pub data PoolStart (E : Type 0) : Type 0 where
  refused : E → NodePool → PoolStart E
  serving : NodePool → PoolStart E
  still_waiting : NodePool → PoolStart E

module _ (sum64 : Text → ℕ) {E : Type 0} where
  -- The wait of Start. Each list of `waits` is the rounds of waitingForHashRing while Start sleeps
  -- for one `updateDuration`.
  unfoldable pub wait_steady : List (List Answer) → NodePool → Outcome PoolError (PoolStart E)
  wait_steady [] np =
      get_state np >>= λ s. elim s [ steady ↦ ok (serving np) | upgrade ↦ ok (still_waiting np) ]
  wait_steady (rounds ∷ waits) np =
      let later = refreshes sum64 rounds np >>= λ np'. wait_steady waits np' in
      get_state np >>= λ s. elim s [ steady ↦ ok (serving np) | upgrade ↦ later ]

  -- `Start`
  unfoldable pub start_pool :
      ℕ
      → Option E
      → Text
      → Outcome E (List Text)
      → List (List Answer)
      → NodePool
      → Outcome PoolError (PoolStart E)
  unfolding wait_steady
  start_pool now started id answer waits np = do
    (failed, np') ← pool_start sum64 now started id answer np
    elim failed [ some e ↦ ok (refused e np') | none ↦ wait_steady waits np' ]
