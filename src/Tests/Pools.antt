-- ===== src/Tests/Pools.antt =====
-- The theorems on the node pool at pools over a ring of one host.
use go_dispatch.NodePool.Life.{
  restart_keeps_nodes, refreshes-listed, pool_stop, refreshes, pool_start, Answer,
}
use go_dispatch.Base.Int.{pos}
use go_dispatch.NodePool.Diff.{occurs}
use go_dispatch.NodePool.Eligible.{IsSteadyOn}
use go_dispatch.Tests.{ring_a, weigh, host_b, host_a}
use go_dispatch.Ring.Invariant.{listed}
use go_dispatch.Base.Outcome.{ok, Returns}
use go_dispatch.NodePool.Tracking.{IsTracking, IsDistinct}
use go_dispatch.NodePool.{NodePool, ring_of, upgrade, steady, PoolState}
use go_dispatch.Base.Keys.{Text, text_beq, text_eq, nat_eq}
use go_dispatch.Base.Maps.{lookup}
use go_dispatch.Base.Shared.{ltb, ℕ, ◌≡◌, refl, true, false, none, some, List, [], ◌∷◌, arith}

abbrev pub pool_of : Text → List Text → PoolState → NodePool
pool_of id pre state = record {
  node_id = id;
  nodes = some ring_a;
  hash_replicas = 1;
  hash_load = pos 0;
  pre_nodes = pre;
  capacity_load = false;
  last_update = none;
  state = some state;
  stop_chan = 0;
}

pub pool_a-IsTracking : IsTracking weigh (pool_of host_a (host_a ∷ []) upgrade)
unfolding lookup
pool_a-IsTracking = record {
  sorted = (tt, tt);
  distinct = λ x. ground arith;
  lists = λ y. ground arith;
}

one_b-IsDistinct : IsDistinct (host_b ∷ [])
one_b-IsDistinct x = ground arith

pub pool-IsSteadyOn : (id : Text) → IsSteadyOn ring_a (pool_of id (host_a ∷ []) steady)
pool-IsSteadyOn id = record { ring = refl; is_steady = refl; plain = refl }

-- The driver names `b`, fails, and names `b` again.
abbrev three_answers : List Answer
three_answers = (7, some (host_b ∷ [])) ∷ (8, none) ∷ (9, some (host_b ∷ [])) ∷ []

refreshes-listed_example :
    Returns
      (λ np'. (y : Text) → listed (ring_of weigh np') y ≡ ltb 0 (occurs y (host_b ∷ [])))
      (refreshes weigh three_answers (pool_of host_a (host_a ∷ []) upgrade))
refreshes-listed_example =
    refreshes-listed weigh three_answers (pool_of host_a (host_a ∷ []) upgrade) pool_a-IsTracking
      (one_b-IsDistinct, (one_b-IsDistinct, tt))

restart_keeps_nodes_example :
    Returns
      (λ np.
        Returns
          (λ (_, np'). listed (ring_of weigh np') host_a ≡ true)
          (pool_start weigh {E = ℕ} 7 none host_b (ok (host_b ∷ [])) np))
      (pool_stop {E = Text} (ok tt) (pool_of host_b (host_a ∷ []) steady))
unfolding lookup text_beq
restart_keeps_nodes_example =
    restart_keeps_nodes weigh ℕ 7 (ok tt) (pool_of host_b (host_a ∷ []) steady) (host_b ∷ []) host_b
      host_a refl tt (tt, tt) refl
