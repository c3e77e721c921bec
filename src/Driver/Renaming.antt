-- ===== src/Driver/Renaming.antt =====
-- A beat after the key of the node has expired, and the node pool.
use go_dispatch.Base.Outcome.{ok}
use go_dispatch.NodePool.Eligible.{eligible_answer, IsSteadyOn}
use go_dispatch.NodePool.{is_eligible, NodePool}
use go_dispatch.Ring.Invariant.{IsRing}
use go_dispatch.Ring.{get, Consistent}
use go_dispatch.Driver.{get_node_id, beat, answer, Driver, Client}
use go_dispatch.Driver.Redis.{register, heart_beat}
use go_dispatch.Base.Keys.{text_beq_iff, text_beq, Text, text_eq}
use go_dispatch.Base.Shared.{
  Bool-cases, length, set, ℕ, ◌<◌, ◌≡◌, sym, ap, ◌∙◌, ◌≢◌, inl, inr, false, arith,
}

module _ {E : Type 0} (client : Client E) (sum64 : Text → ℕ) (c : Consistent)
    (ring : IsRing sum64 c) (some_host : 0 < length c.hosts) where
  renamed :
      (uuid : Text) (d : Driver) (s : client.Server)
      → client.exists d.node_id s ≡ answer 0
      → let new = get_node_id d.global_key_prefix d.service_name uuid in
        ((heart_beat client uuid d s).0.node_id ≡ new)
        × ((heart_beat client uuid d s).1 ≡ (client.set_ex new new d.timeout s).1)
  unfolding heart_beat register beat
  renamed uuid d s gone = ground (arith, gone)

  -- A beat of the driver that finds the key of its node expired gives the node the new name that
  -- comes of uuid, and sets this name as a key, with itself as the value, for the timeout of the
  -- driver; this is all it does to the server. A steady pool that was started under the old name,
  -- in the mode that does not count loads, over a well-formed ring that has a host, then answers
  -- that it may not run a job that the ring gives to the new name, where this is not the old one.
  pub renamed_node-idle :
      (uuid key : Text) (d : Driver) (s : client.Server) (np : NodePool)
      → client.exists d.node_id s ≡ answer 0
      → get_node_id d.global_key_prefix d.service_name uuid ≢ d.node_id
      → np.node_id ≡ d.node_id
      → IsSteadyOn c np
      → get sum64 c key ≡ ok (get_node_id d.global_key_prefix d.service_name uuid)
      → let new = get_node_id d.global_key_prefix d.service_name uuid in
        ((heart_beat client uuid d s).0.node_id ≡ new)
        × ((heart_beat client uuid d s).1 ≡ (client.set_ex new new d.timeout s).1)
        × (is_eligible sum64 np key ≡ ok (false, np))
  renamed_node-idle uuid key d s np gone fresh same steady own =
      let new = get_node_id d.global_key_prefix d.service_name uuid in
      let differs : text_beq np.node_id new ≡ false = elim (Bool-cases (text_beq np.node_id new)) [
        | inl e ↦ absurd (fresh (sym ((text_beq_iff np.node_id new).0 e) ∙ same))
        | inr e ↦ e
      ] in
      let (name, set) = renamed uuid d s gone in
      (
        name,
        set,
        eligible_answer sum64 c key ring some_host new np own steady ∙ ap (λ b. ok (b, np)) differs,
      )
