-- ===== src/Tests/Drivers.antt =====
-- The theorems on the drivers at a server that is a list of keys, and at one that does not answer.
use go_dispatch.Driver.Renaming.{renamed_node-idle}
use go_dispatch.Ring.Invariant.{IsRing}
use go_dispatch.NodePool.Diff.{occurs}
use go_dispatch.Tests.{weigh, host_a}
use go_dispatch.Ring.Invariant.{listed}
use go_dispatch.Base.Int.{pos}
use go_dispatch.Tests.Pools.{pool_of}
use go_dispatch.NodePool.{is_eligible, steady, NodePool}
use go_dispatch.Base.Outcome.{ok}
use go_dispatch.Base.Maps.{lookup}
use go_dispatch.Driver.Life.{start-Started, Started}
use go_dispatch.Ring.{get, replica_point, Consistent}
use go_dispatch.Driver.{beat, answer, new_driver, Driver, Client}
use go_dispatch.Driver.Redis.{register, heart_beat, start}
use go_dispatch.Base.Keys.{decimal, text_beq, codes, Text, text_eq, nat_eq}
use go_dispatch.Points.{search}
use go_dispatch.Base.Shared.{ℕ, ◌+◌, ◌*◌, ◌≡◌, refl, false, none, some, List, [], ◌∷◌, map, arith}

abbrev list_client : Client ℕ
list_client = record {
  Server = List Text;
  exists = λ key s. answer (occurs key s);
  set_ex = λ key value timeout s. (none, key ∷ s);
  del = λ key s. (none, s);
  scan = λ pattern s. (map (λ key. (key, none)) s, none);
  z_add = λ key score member s. (none, member ∷ s);
  z_range_by_score = λ key least s. answer s;
}

-- A server that goes away before the first answer of a scan.
abbrev silent_client : Client ℕ
silent_client = record list_client {
  set_ex = λ key value timeout s. (some 1, s);
  scan = λ pattern s. ([], some 1);
}

-- A driver of a service and prefix with empty names.
abbrev plain_driver : Driver
plain_driver = record new_driver { global_key_prefix = [] }

start-Started_example :
    Started silent_client
      (codes "u")
      plain_driver
      []
      (start silent_client (codes "u") plain_driver [])
start-Started_example = start-Started silent_client (codes "u") plain_driver []

-- The name that a node takes with the identifier "u", and its point.
abbrev node_u : Text
node_u = codes ":u"

abbrev point_u : ℕ
point_u = 58 + 256 * (117 + 256 * 48)

-- A ring with one host.
abbrev ring_u : Consistent
ring_u = record {
  hosts = (point_u, node_u) ∷ [];
  sorted_set = point_u ∷ [];
  load_map = (node_u, record { name = node_u; load = pos 0 }) ∷ [];
  total_load = pos 0;
  replicas = 1;
  default_load = pos 0;
}

owner_is_u :
    (q : ℕ) (x : Text) → lookup q ((point_u, node_u) ∷ []) ≡ some x → (node_u ≡ x) × (q ≡ point_u)
unfolding lookup text_beq
owner_is_u q x e = (ground (arith, e), ground (arith, e))

ring_u-IsRing : IsRing weigh ring_u
unfolding lookup text_beq weigh replica_point decimal
ring_u-IsRing = record {
  spread = record {
    index = record { is_map = (refl, tt); counts = λ q. ground arith; size = refl };
    loads_map = (refl, tt);
    listed = λ q x e. let mine = (owner_is_u q x e).0 in rw (← mine) refl;
    placed = λ q x e. let (mine, here) = owner_is_u q x e in rw (← mine) (0, omega arith, here);
  };
  sorted = (tt, tt);
}

-- A pool that was started under the name "a".
abbrev pool_a : NodePool
pool_a = record (pool_of host_a (node_u ∷ []) steady) { nodes = some ring_u }

renamed_node-idle_example :
    let beaten = heart_beat list_client (codes "u") (record plain_driver { node_id = host_a }) [] in
    (beaten.0.node_id ≡ node_u)
    × (beaten.1 ≡ node_u ∷ [])
    × (is_eligible weigh pool_a (codes "job") ≡ ok (false, pool_a))
unfolding heart_beat register beat text_beq get search weigh lookup
renamed_node-idle_example =
    renamed_node-idle list_client weigh ring_u ring_u-IsRing (omega arith) (codes "u") (codes "job")
      (record plain_driver { node_id = host_a }) [] pool_a refl (λ e. absurd cc) refl
      (record { ring = refl; is_steady = refl; plain = refl }) refl
