-- ===== src/Driver/Alive.antt =====
-- Which nodes the driver of rediszsetdriver.go lists, after any beats of any nodes of the service.
use go_dispatch.NodePool.Diff.{occurs}
use go_dispatch.Driver.ZSet.{unregister, z_register, z_get_nodes}
use go_dispatch.Driver.{time_pre, answer, get_key_pre, Driver, Client}
use go_dispatch.Base.Keys.{text_beq_iff, text_beq, Text, text_eq}
use go_dispatch.Base.Shared.{
  leb, if◌then◌else◌, Bool-cases, ℕ, ◌/◌, ◌≡◌, refl, sym, ap, ◌∙◌, ◌≢◌, inl, inr, ◌&&◌, Option,
  none, some, List, [], ◌∷◌,
}

-- Sorted sets as Redis documents them, where a command answers: ZADD sets the score of one member
-- of one set, a range by score gives each member with such a score once, and DEL takes away the
-- key that it names.
pub record SetLaws {E : Type 0} (client : Client E) : Type 0 where
  pub score : Text → Text → client.Server → Option ℕ
  pub z_add_lem :
      (key member : Text) (value : ℕ) (s : client.Server)
      → (client.z_add key value member s).0 ≡ none
      → (k m : Text)
      → score k m (client.z_add key value member s).1
        ≡ (if text_beq key k && text_beq member m then some value else score k m s)
  pub z_range_lem :
      (key : Text) (least : ℕ) (s : client.Server) (found : List Text)
      → client.z_range_by_score key least s ≡ answer found
      → (m : Text)
      → occurs m found
        ≡ (elim (score key m s) [ none ↦ 0 | some value ↦ if leb least value then 1 else 0 ])
  pub del_lem :
      (key k m : Text) (s : client.Server) → key ≢ k → score k m (client.del key s).1 ≡ score k m s

-- The key of a driver's set.
abbrev pub set_key : Driver → Text
set_key d = get_key_pre d.global_key_prefix d.service_name

-- The last beat of the node in a history, the latest beat first.
abbrev pub last_beat : Text → List (ℕ × Text) → Option ℕ
last_beat m [] = none
last_beat m ((now, node) ∷ log) =
    let earlier = last_beat m log in if text_beq node m then some now else earlier

-- What drivers of the service `key` do to the server, with the history of their beats: a node
-- beats, a beat is lost, a driver that was stopped deletes what it is named as.
pub data Beats {E : Type 0} (client : Client E) (key : Text) (s0 : client.Server)
    : List (ℕ × Text) → client.Server → Type 0 where
  none_yet : Beats client key s0 [] s0
  beaten :
      {log : List (ℕ × Text)} {s s' : client.Server} (now : ℕ) (d : Driver)
      → set_key d ≡ key
      → Beats client key s0 log s
      → z_register client now d s ≡ (none, d, s')
      → Beats client key s0 ((now, d.node_id) ∷ log) s'
  lost :
      {log : List (ℕ × Text)} {s : client.Server} (now : ℕ) (d : Driver) (e : E)
      → Beats client key s0 log s
      → z_register client now d s ≡ (some e, d, s)
      → Beats client key s0 log s
  stopped :
      {log : List (ℕ × Text)} {s : client.Server} (d : Driver)
      → d.node_id ≢ key
      → Beats client key s0 log s
      → Beats client key s0 log (unregister client d s)

module _ {E : Type 0} (client : Client E) (laws : SetLaws client) (key : Text) (s0 : client.Server)
    (empty : (m : Text) → laws.score key m s0 ≡ none) where
  -- The score of a member is the second of its last beat.
  abbrev seconds : Option ℕ → Option ℕ
  seconds none = none
  seconds (some now) = some (now / 1000000000)

  Beats-score :
      {log : List (ℕ × Text)} {s : client.Server}
      → Beats client key s0 log s
      → (m : Text) → laws.score key m s ≡ seconds (last_beat m log)
  unfolding z_register unregister
  Beats-score none_yet m = empty m
  Beats-score (beaten {log} {s} now d same b done) m =
      ap (laws.score key m) (sym (ap (λ t. t.2) done))
      ∙ laws.z_add_lem (set_key d) d.node_id (now / 1000000000) s (ap (λ t. t.0) done) key m
      ∙ elim (Bool-cases (text_beq d.node_id m)) [
        | inl e ↦ rw ((text_beq_iff (set_key d) key).1 same, e) refl
        | inr e ↦ rw ((text_beq_iff (set_key d) key).1 same, e) (Beats-score b m)
      ]
  Beats-score (lost now d e b done) m = Beats-score b m
  Beats-score (stopped d other b) m = laws.del_lem d.node_id key m _ other ∙ Beats-score b m

  -- Drivers of one service, whose set was empty in the beginning, beat in any order, some beats
  -- are lost, and some drivers, whose nodes are not named as the set, are stopped. Where GetNodes then answers, it lists, once each, the
  -- nodes whose last beat is no older, in whole seconds, than the timeout of the driver that asks;
  -- so also a node whose driver was stopped.
  pub z_get_nodes-alive :
      {log : List (ℕ × Text)} {s : client.Server} (now : ℕ) (d : Driver) (nodes : List Text)
      → Beats client key s0 log s
      → set_key d ≡ key
      → z_get_nodes client now d s ≡ answer nodes
      → (m : Text)
      → occurs m nodes ≡ (elim (last_beat m log) [
        | none ↦ 0
        | some beat ↦ if leb (time_pre now d.timeout) (beat / 1000000000) then 1 else 0
      ])
  unfolding z_get_nodes
  z_get_nodes-alive {log} {s} now d nodes b same got m =
      laws.z_range_lem (set_key d) (time_pre now d.timeout) s nodes got m
      ∙ ap
          (λ o. elim o [
            | none ↦ 0
            | some value ↦ if leb (time_pre now d.timeout) value then 1 else 0
          ])
          (ap (λ k. laws.score k m s) same ∙ Beats-score b m)
      ∙ ends (last_beat m log)
    where
      ends :
          (o : Option ℕ)
          → ◌≡◌ {A = ℕ}
              (elim (seconds o) [
                | none ↦ 0
                | some value ↦ if leb (time_pre now d.timeout) value then 1 else 0
              ])
              (elim o [
                | none ↦ 0
                | some beat ↦ if leb (time_pre now d.timeout) (beat / 1000000000) then 1 else 0
              ])
      ends none = refl
      ends (some beat) = refl
