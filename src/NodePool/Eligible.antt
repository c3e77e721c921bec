-- ===== src/NodePool/Eligible.antt =====
-- `is_eligible`: of all the nodes that see the same ring, just one may run a job.
use mathlib.Core.Path.{subst}
use go_dispatch.Base.Outcome.{Returns, ok, err, Returns-inv}
use go_dispatch.Base.Keys.{Text, text_eq, nat_eq, text_beq, text_beq_iff}
use go_dispatch.Ring.{Consistent, get, is_empty}
use go_dispatch.Ring.Invariant.{IsRing}
use go_dispatch.Ring.Owner.{IsOwner, get-IsOwner}
use go_dispatch.NodePool.{NodePool, steady, upgrade, is_upgrading, get_host, is_eligible}
use go_dispatch.Base.Shared.{length, ℕ, ◌<◌, ◌≡◌, sym, ◌∙◌, Bool, true, false, some, arith}

-- A steady pool over the ring `c`, in the mode that does not count loads.
pub record IsSteadyOn (c : Consistent) (np : NodePool) : Type 0 where
  pub ring : np.nodes ≡ some c
  pub is_steady : np.state ≡ some steady
  pub plain : np.capacity_load ≡ false

module _ (sum64 : Text → ℕ) (c : Consistent) (key : Text) (ring : IsRing sum64 c)
    (some_host : 0 < length c.hosts) where
  -- Every node names the same owner of the key, and is eligible if that is itself.
  abbrev pub AgreesOn : Text → NodePool → Bool × NodePool → Type 0
  AgreesOn x np (answer, np') = (answer ≡ text_beq np.node_id x) × (np' ≡ np)

  pub eligible_answer :
      (x : Text) (np : NodePool)
      → get sum64 c key ≡ ok x
      → IsSteadyOn c np
      → is_eligible sum64 np key ≡ ok (text_beq np.node_id x, np)
  unfolding is_eligible get_host is_empty
  eligible_answer x np got s = ground (arith, s.ring, s.is_steady, s.plain)

  -- Every steady node that does not count loads, over a well-formed ring that has a host, answers
  -- whether it may run a job: it may just when it is the owner of the first point clockwise from
  -- the hash of the job's name.
  pub is_eligible-IsOwner :
      (x : Text) (np : NodePool)
      → get sum64 c key ≡ ok x
      → IsSteadyOn c np
      → IsOwner c.hosts (sum64 key) x × (is_eligible sum64 np key ≡ ok (text_beq np.node_id x, np))
  is_eligible-IsOwner x np got s = (
    subst (Returns (IsOwner c.hosts (sum64 key))) got (get-IsOwner sum64 c ring key some_host),
    eligible_answer x np got s,
  )

  -- Two steady nodes that do not count loads, over the same well-formed ring that has a host, and
  -- that both may run a job, are one node.
  pub is_eligible_unique :
      (np np' : NodePool)
      → IsSteadyOn c np
      → IsSteadyOn c np'
      → is_eligible sum64 np key ≡ ok (true, np)
      → is_eligible sum64 np' key ≡ ok (true, np')
      → np.node_id ≡ np'.node_id
  is_eligible_unique np np' s s' yes_np yes_np' =
      let (x, got, _) =
        Returns-inv (IsOwner c.hosts (sum64 key)) _ (get-IsOwner sum64 c ring key some_host) in
      let mine : text_beq np.node_id x ≡ true = cc (eligible_answer x np got s) in
      let yours : text_beq np'.node_id x ≡ true = cc (eligible_answer x np' got s') in
      (text_beq_iff np.node_id x).0 mine ∙ sym ((text_beq_iff np'.node_id x).0 yours)

-- While the pool is upgrading, no node with a ring that has hosts may run any job.
pub is_eligible-upgrading :
    (sum64 : Text → ℕ) (np : NodePool) (c : Consistent) (key : Text)
    → np.nodes ≡ some c
    → 0 < length c.hosts
    → np.state ≡ some upgrade
    → is_eligible sum64 np key ≡ err is_upgrading
unfolding is_eligible get_host is_empty
is_eligible-upgrading sum64 np c key ring some_host up = ground arith
