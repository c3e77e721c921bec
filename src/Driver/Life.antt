-- ===== src/Driver/Life.antt =====
-- Start of the driver of redisdriver.go, on every branch.
use go_dispatch.NodePool.{is_nil}
use go_dispatch.Driver.{
  get_node_id, answer, Reply, client_failed, already_started, DriverError, start_with, Driver,
  Client, failed,
}
use go_dispatch.Driver.Redis.{register, start}
use go_dispatch.Base.Keys.{Text, text_eq}
use go_dispatch.Base.Shared.{
  ◌==◌, if◌then◌else◌, Bool-cases, set, ℕ, ◌+◌, ◌≡◌, refl, ap, ◌∙◌, ◌⊎◌, inl, inr, Bool, true,
  false, ◌||◌, Option, none, some,
}

pub reply_cases :
    {E A : Type 0} (r : Reply E A) → ((a : A) × (r ≡ answer a)) ⊎ ((e : E) × (r ≡ failed e))
reply_cases (answer a) = inl (a, refl)
reply_cases (failed e) = inr (e, refl)

module _ {E : Type 0} (client : Client E) where
  -- The node's name after registerServiceNode, where EXISTS has answered `n`.
  abbrev pub name_after : Text → Driver → ℕ → Text
  name_after uuid d n =
      if is_nil d.node_id || n == 0
      then get_node_id d.global_key_prefix d.service_name uuid
      else d.node_id

  -- What registerServiceNode does where it answers with the error `e`: EXISTS has failed, and
  -- nothing has changed, or SETEX has.
  abbrev pub FailedWith : Text → Driver → client.Server → E → Driver → client.Server → Type 0
  FailedWith uuid d s e d' s' =
      ((client.exists d.node_id s ≡ failed e) × (d'.node_id ≡ d.node_id) × (s' ≡ s))
      ⊎ ((n : ℕ) × (client.exists d.node_id s ≡ answer n)
          × (d'.node_id ≡ name_after uuid d n)
          × (client.set_ex d'.node_id d'.node_id d.timeout s ≡ (some e, s')))

  -- What registerServiceNode does where it answers without an error.
  abbrev pub SetWith : Text → Driver → client.Server → Driver → client.Server → Type 0
  SetWith uuid d s d' s' =
      (n : ℕ) × (client.exists d.node_id s ≡ answer n)
      × (d'.node_id ≡ name_after uuid d n)
      × (client.set_ex d'.node_id d'.node_id d.timeout s ≡ (none, s'))

  abbrev pub IsRegistration :
      Text → Driver → client.Server → Option E × Driver × client.Server → Type 0
  IsRegistration uuid d s (some e, d', s') = FailedWith uuid d s e d' s'
  IsRegistration uuid d s (none, d', s') = SetWith uuid d s d' s'

  -- A second Start is refused and does nothing; so is one after a Start that failed, as long as
  -- the driver is not stopped. A Start that succeeds has one more goroutine that beats.
  abbrev pub Started :
      Text → Driver → client.Server → Option (DriverError E) × Driver × client.Server → Type 0
  Started uuid d s (some already_started, d', s') = (d.started ≡ true) × (d' ≡ d) × (s' ≡ s)
  Started uuid d s (some (client_failed e), d', s') =
      (d.started ≡ false)
      × (d'.started ≡ true)
      × (d'.beats ≡ d.beats)
      × FailedWith uuid d s e d' s'
      × ((uuid' : Text) (s'' : client.Server)
          → start client uuid' d' s'' ≡ (some already_started, d', s''))
  Started uuid d s (none, d', s') =
      (d.started ≡ false) × (d'.started ≡ true) × (d'.beats ≡ d.beats + 1) × SetWith uuid d s d' s'

  -- What registerServiceNode leaves alone, and the key that it sets where it does not fail.
  abbrev pub Registered : Driver → client.Server → Option E × Driver × client.Server → Type 0
  Registered d s (error, d', s') =
      (d'.started ≡ d.started)
      × (d'.beats ≡ d.beats)
      × (error ≡ none → client.set_ex d'.node_id d'.node_id d.timeout s ≡ (none, s'))

  abbrev set_key : Driver → client.Server → Option E × Driver × client.Server
  set_key d s = let (error, s') = client.set_ex d.node_id d.node_id d.timeout s in (error, d, s')

  set_key-Registered :
      (d d' : Driver) (s : client.Server)
      → d'.started ≡ d.started
      → d'.beats ≡ d.beats
      → d'.timeout ≡ d.timeout
      → Registered d s (set_key d' s)
  set_key-Registered d d' s started beats timeout = (started, beats, λ e. rw (← timeout, ← e) refl)

  pub register-Registered :
      (uuid : Text) (d : Driver) (s : client.Server) → Registered d s (register client uuid d s)
  unfolding register
  register-Registered uuid d s = elim (reply_cases (client.exists d.node_id s)) [
    | inl (n, e) ↦ elim (Bool-cases (is_nil d.node_id || n == 0)) [
      | inl gone ↦
          rw (register, e, gone)
            (set_key-Registered d
              (record d { node_id = get_node_id d.global_key_prefix d.service_name uuid }) s refl
              refl refl)
      | inr there ↦ rw (register, e, there) (set_key-Registered d d s refl refl refl)
    ]
    | inr (x, e) ↦ rw (register, e) (refl, refl, λ h. absurd cc)
  ]

  named-IsRegistration :
      (uuid : Text) (d d' : Driver) (s : client.Server) (n : ℕ) (r : Option E × client.Server)
      → client.exists d.node_id s ≡ answer n
      → d'.node_id ≡ name_after uuid d n
      → client.set_ex d'.node_id d'.node_id d.timeout s ≡ r
      → IsRegistration uuid d s (r.0, d', r.1)
  named-IsRegistration uuid d d' s n (some e, s') there name done = inr (n, there, name, done)
  named-IsRegistration uuid d d' s n (none, s') there name done = (n, there, name, done)

  pub register-IsRegistration :
      (uuid : Text) (d : Driver) (s : client.Server)
      → IsRegistration uuid d s (register client uuid d s)
  unfolding register
  register-IsRegistration uuid d s = elim (reply_cases (client.exists d.node_id s)) [
    | inl (n, e) ↦ elim (Bool-cases (is_nil d.node_id || n == 0)) [
      | inl gone ↦
          let new : Driver = record d {
            node_id = get_node_id d.global_key_prefix d.service_name uuid;
          } in
          rw (register, e, gone) (named-IsRegistration uuid d new s n _ e (rw gone refl) refl)
      | inr there ↦
          rw (register, e, there) (named-IsRegistration uuid d d s n _ e (rw there refl) refl)
    ]
    | inr (x, e) ↦ rw (register, e) (inl (e, refl, refl))
  ]

  abbrev begun : Option E × Driver × client.Server → Option (DriverError E) × Driver × client.Server
  begun (some e, d, s) = (some (client_failed e), d, s)
  begun (none, d, s) = (none, record d { beats = d.beats + 1 }, s)

  refused :
      (uuid : Text) (d : Driver) (s : client.Server)
      → d.started ≡ true
      → start client uuid d s ≡ (some already_started, d, s)
  unfolding start start_with
  refused uuid d s e = rw e refl

  -- `Start`, given what the field `started` and registerServiceNode are.
  abbrev body :
      Driver
      → client.Server
      → Bool
      → Option E × Driver × client.Server
      → Option (DriverError E) × Driver × client.Server
  body d s true r = (some already_started, d, s)
  body d s false r = begun r

  -- The same, as Start computes it.
  abbrev opened :
      Driver
      → client.Server
      → Bool
      → Option E × Driver × client.Server
      → Option (DriverError E) × Driver × client.Server
  opened d s b (error, d', s') = if b then (some already_started, d, s) else elim error [
    | some e ↦ (some (client_failed e), d', s')
    | none ↦ (none, record d' { beats = d'.beats + 1 }, s')
  ]

  opened-body :
      (d : Driver) (s : client.Server) (b : Bool) (r : Option E × Driver × client.Server)
      → opened d s b r ≡ body d s b r
  opened-body d s true r = refl
  opened-body d s false (some e, d', s') = refl
  opened-body d s false (none, d', s') = refl

  start_body :
      (uuid : Text) (d : Driver) (s : client.Server) (b : Bool)
      → d.started ≡ b
      → start client uuid d s
        ≡ body d s b (register client uuid (record d { alive = some true; started = true }) s)
  unfolding start start_with
  start_body uuid d s b on =
      let r = register client uuid (record d { alive = some true; started = true }) s in
      ap (λ b'. opened d s b' r) on ∙ opened-body d s b r

  begun-Started :
      (uuid : Text) (d : Driver) (s : client.Server) (r : Option E × Driver × client.Server)
      → d.started ≡ false
      → Registered (record d { alive = some true; started = true }) s r
      → IsRegistration uuid (record d { alive = some true; started = true }) s r
      → Started uuid d s (begun r)
  begun-Started uuid d s (some e, d', s') off (on, beats, set) done =
      (off, on, beats, done, λ uuid' s''. refused uuid' d' s'' on)
  begun-Started uuid d s (none, d', s') off (on, beats, set) done =
      (off, on, ap (λ n. n + 1) beats, done)

  -- Start of a Redis driver that is started is refused and changes nothing. Else it asks EXISTS
  -- for the node's key, and takes a new name where the node has none or the key is gone. Where
  -- EXISTS fails, Start answers with its error, under the old name and with the server as it was;
  -- where SETEX of the node's name fails, with that error. After either error no more goroutine
  -- beats than before, and every later Start is refused as long as the driver is not stopped.
  -- Without an error SETEX has set the node's name for the timeout of the driver, and one more
  -- goroutine beats.
  pub start-Started :
      (uuid : Text) (d : Driver) (s : client.Server) → Started uuid d s (start client uuid d s)
  unfolding start start_with
  start-Started uuid d s =
      let first : Driver = record d { alive = some true; started = true } in
      elim (Bool-cases d.started) [
        | inl on ↦ rw (refused uuid d s on) (on, refl, refl)
        | inr off ↦ rw (start_body uuid d s false off) (
            begun-Started uuid d s (register client uuid first s) off
              (register-Registered uuid first s) (register-IsRegistration uuid first s))
      ]
