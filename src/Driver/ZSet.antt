-- ===== src/Driver/ZSet.antt =====
-- driver/rediszsetdriver.go: the nodes of a service are the members of one sorted set, with the
-- time of their last beat.
use go_dispatch.Base.Keys.{Text}
use go_dispatch.Driver.{time_pre, start_with, DriverError, Reply, get_key_pre, beat, Driver, Client}
use go_dispatch.Base.Shared.{ℕ, ◌/◌, Option, List}

module _ {E : Type 0} (client : Client E) where
  -- `registerServiceNode`
  unfoldable pub z_register : ℕ → Driver → client.Server → Option E × Driver × client.Server
  z_register now d s =
      let key = get_key_pre d.global_key_prefix d.service_name in
      let (error, s') = client.z_add key (now / 1000000000) d.node_id s in (error, d, s')

  -- `Start`
  unfoldable pub z_start :
      ℕ → Driver → client.Server → Option (DriverError E) × Driver × client.Server
  unfolding z_register
  z_start now d s = start_with (z_register now) d s

  -- A tick of heartBeat.
  unfoldable pub z_heart_beat : ℕ → Driver → client.Server → Driver × client.Server
  unfolding z_register
  z_heart_beat now d s = beat (z_register now) d s

  -- `GetNodes`
  unfoldable pub z_get_nodes : ℕ → Driver → client.Server → Reply E (List Text)
  z_get_nodes now d s =
      client.z_range_by_score (get_key_pre d.global_key_prefix d.service_name)
        (time_pre now d.timeout) s

-- What heartBeat does in both drivers when the runtime context is done: it deletes the key that is
-- named as the node.
unfoldable pub unregister :
    {E : Type 0} (client : Client E) → Driver → client.Server → client.Server
unregister client d s = (client.del d.node_id s).1
