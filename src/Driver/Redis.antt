-- ===== src/Driver/Redis.antt =====
-- driver/redisdriver.go: a node is a key with a time to live.
use go_dispatch.NodePool.{is_nil}
use go_dispatch.Base.Keys.{codes, Text}
use go_dispatch.Driver.{
  get_node_id, get_key_pre, answer, start_with, beat, failed, Reply, DriverError, Driver, Client,
}
use go_dispatch.Base.Shared.{◌==◌, if◌then◌else◌, ◌||◌, Option, none, some, List, [], ◌∷◌, ◌++◌}

module _ {E : Type 0} (client : Client E) where
  -- `registerServiceNode`, with the identifier that uuid gives if it is asked for one. A node
  -- whose key is gone takes a new name.
  unfoldable pub register : Text → Driver → client.Server → Option E × Driver × client.Server
  register uuid d s = elim (client.exists d.node_id s) [
    | failed e ↦ (some e, d, s)
    | answer n ↦
        let d' : Driver =
          if is_nil d.node_id || n == 0
          then record d { node_id = get_node_id d.global_key_prefix d.service_name uuid }
          else d in
        let (error, s') = client.set_ex d'.node_id d'.node_id d'.timeout s in (error, d', s')
  ]

  -- `Start`
  unfoldable pub start :
      Text → Driver → client.Server → Option (DriverError E) × Driver × client.Server
  unfolding register
  start uuid d s = start_with (register uuid) d s

  -- A tick of heartBeat.
  unfoldable pub heart_beat : Text → Driver → client.Server → Driver × client.Server
  unfolding register
  heart_beat uuid d s = beat (register uuid) d s

  -- The loop of `scan`, which looks at the error only after a Next that is true.
  unfoldable pub scan_loop : List (Text × Option E) → Reply E (List Text)
  scan_loop [] = answer []
  scan_loop ((key, none) ∷ more) = elim (scan_loop more) [
    | failed e ↦ failed e
    | answer keys ↦ answer (key ∷ keys)
  ]
  scan_loop ((key, some e) ∷ more) = failed e

  -- `GetNodes`
  unfoldable pub get_nodes : Driver → client.Server → Reply E (List Text)
  unfolding scan_loop
  get_nodes d s =
      scan_loop (client.scan (get_key_pre d.global_key_prefix d.service_name ++ codes "*") s).0
