-- ===== src/Driver/Beating.antt =====
-- A node of redisdriver.go that beats in time.
use go_dispatch.Driver.Life.{register-Registered, Registered, reply_cases}
use mathlib.Core.Path.{subst}
use go_dispatch.NodePool.{is_nil}
use go_dispatch.Driver.Redis.{register}
use go_dispatch.Driver.{answer, Driver, Client}
use go_dispatch.Base.Keys.{Text, text_eq}
use go_dispatch.Base.Shared.{
  ltb, ◌==◌, if◌then◌else◌, is_some, ℕ, ◌+◌, ◌-◌, ◌%◌, ◌<◌, ◌≡◌, refl, sym, ap, ◌∙◌, inl, inr,
  false, not, Option, none, some, arith,
}

-- The time to live that SETEX is sent for a duration in nanoseconds: it counts whole seconds, and
-- the client rounds down, to one second at least.
unfoldable pub whole_seconds : ℕ → ℕ
whole_seconds duration =
    if ltb duration 1000000000 then 1000000000 else duration - duration % 1000000000

-- Keys with a time to live as Redis and its client document them, where a command answers.
pub record KeyLaws {E : Type 0} (client : Client E) : Type 0 where
  -- How long the key still lives; `none` where there is no such key.
  pub left : Text → client.Server → Option ℕ
  -- The server after some time without commands.
  pub pass : ℕ → client.Server → client.Server
  pub set_ex_lem :
      (key value : Text) (ttl : ℕ) (s : client.Server)
      → 0 < ttl
      → (client.set_ex key value ttl s).0 ≡ none
      → left key (client.set_ex key value ttl s).1 ≡ some (whole_seconds ttl)
  pub pass_lem :
      (t ttl : ℕ) (key : Text) (s : client.Server)
      → left key s ≡ some ttl
      → t < ttl
      → left key (pass t s) ≡ some (ttl - t)
  pub exists_lem :
      (key : Text) (n : ℕ) (s : client.Server)
      → client.exists key s ≡ answer n
      → (n == 0) ≡ not (is_some (left key s))

-- A driver whose node was registered, and the server some time after its last beat that the server
-- answered: time passes, less than the time to live in all, others use the server, the driver beats.
pub data Beating {E : Type 0} (client : Client E) (laws : KeyLaws client) (d : Driver)
    : client.Server → ℕ → Type 0 where
  registered :
      {s s' : client.Server}
      → client.set_ex d.node_id d.node_id d.timeout s ≡ (none, s')
      → Beating client laws d s' 0
  passed :
      {s : client.Server} {since : ℕ} (t : ℕ)
      → Beating client laws d s since
      → since + t < whole_seconds d.timeout
      → Beating client laws d (laws.pass t s) (since + t)
  used :
      {s s' : client.Server} {since : ℕ}
      → Beating client laws d s since
      → laws.left d.node_id s' ≡ laws.left d.node_id s
      → Beating client laws d s' since
  renewed :
      {s s' : client.Server} {since : ℕ} {d' : Driver} (uuid : Text)
      → Beating client laws d s since
      → register client uuid d s ≡ (none, d', s')
      → Beating client laws d s' 0

module _ {E : Type 0} (client : Client E) (laws : KeyLaws client) (d : Driver)
    (named : is_nil d.node_id ≡ false) where
  kept_name :
      (uuid : Text) (s : client.Server) (ttl : ℕ)
      → laws.left d.node_id s ≡ some ttl
      → (register client uuid d s).1 ≡ d
  unfolding register
  kept_name uuid s ttl alive = elim (reply_cases (client.exists d.node_id s)) [
    | inr (e, failing) ↦ rw (register, failing) refl
    | inl (n, found) ↦
        let there : (n == 0) ≡ false =
          laws.exists_lem d.node_id n s found ∙ ap (λ o. not (is_some o)) alive in
        rw (register, found, named, there) refl
  ]

  set_ex-left :
      {s s' : client.Server}
      → 0 < d.timeout
      → client.set_ex d.node_id d.node_id d.timeout s ≡ (none, s')
      → laws.left d.node_id s' ≡ some (whole_seconds d.timeout - 0)
  set_ex-left {s} {s'} some_time done =
      ap (laws.left d.node_id) (sym (ap (λ t. t.1) done))
      ∙ laws.set_ex_lem d.node_id d.node_id d.timeout s some_time (ap (λ t. t.0) done)
      ∙ ap some (omega arith)

  Beating-left :
      {s : client.Server} {since : ℕ}
      → 0 < d.timeout
      → Beating client laws d s since
      → laws.left d.node_id s ≡ some (whole_seconds d.timeout - since)
  Beating-left some_time (registered done) = set_ex-left some_time done
  Beating-left some_time (passed {s} {since} t b small) =
      laws.pass_lem t (whole_seconds d.timeout - since) d.node_id s (Beating-left some_time b)
        (omega arith)
      ∙ ap some (omega arith)
  Beating-left some_time (used b same) = same ∙ Beating-left some_time b
  Beating-left some_time (renewed {s} {s'} {since} {d'} uuid b done) =
      let name = ap (λ t. t.1) (sym done) ∙ kept_name uuid s _ (Beating-left some_time b) in
      let sent =
        (subst (Registered client d s) done (register-Registered client uuid d s)).2 refl in
      let sent' =
        subst (λ e. client.set_ex e.node_id e.node_id d.timeout s ≡ (none, s')) name sent in
      set_ex-left some_time sent'

  -- A driver with a timeout above 0, whose node has a name and was registered, and whose beats that
  -- the server answers are less apart than its timeout in whole seconds, which is one at least: the
  -- node's key never expires in between, and no beat gives the node a new name. No other command
  -- changes how long that key lives.
  pub Beating-alive :
      {s : client.Server} {since : ℕ}
      → 0 < d.timeout
      → Beating client laws d s since
      → (laws.left d.node_id s ≡ some (whole_seconds d.timeout - since))
        × ((uuid : Text) → (register client uuid d s).1 ≡ d)
  Beating-alive {s} {since} some_time b =
      let alive = Beating-left some_time b in
      (alive, λ uuid. kept_name uuid s (whole_seconds d.timeout - since) alive)
