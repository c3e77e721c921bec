-- ===== src/Tests/Beats.antt =====
-- The theorems on beats at a server with the scores of one node, and at one with times to live.
use go_dispatch.Driver.Redis.{register}
use go_dispatch.Driver.Alive.{z_get_nodes-alive, none_yet}
use go_dispatch.Driver.Alive.{beaten}
use go_dispatch.Driver.Beating.{whole_seconds, passed, registered, Beating-alive, Beating, renewed}
use go_dispatch.NodePool.Diff.{occurs}
use go_dispatch.Driver.Alive.{stopped}
use go_dispatch.Driver.ZSet.{z_get_nodes, z_register, unregister}
use go_dispatch.Driver.Alive.{Beats, set_key, SetLaws}
use go_dispatch.Driver.Beating.{KeyLaws}
use go_dispatch.Driver.{Reply, failed, answer, new_driver, Client, Driver}
use go_dispatch.Tests.{host_a}
use go_dispatch.Base.Keys.{codes, text_beq_iff, Text, text_beq, text_eq, nat_eq}
use go_dispatch.Base.Shared.{
  ltb, leb, ◌==◌, if◌then◌else◌, Bool-cases, is_some, ℕ, ◌+◌, ◌-◌, ◌<◌, ◌≡◌, refl, sym, ap, ◌∙◌,
  inl, inr, true, not, ◌&&◌, Option, none, some, List, [], ◌∷◌, arith,
}

-- The score of one node in each sorted set; a server that takes no other member.
abbrev Scores : Type 0
Scores = Text → Option ℕ

put : {A : Type 0} → Text → A → (Text → Option A) → Text → Option A
put key value s k = if text_beq key k then some value else s k

in_range : Option ℕ → ℕ → List Text
in_range none least = []
in_range (some value) least = if leb least value then host_a ∷ [] else []

abbrev score_client : Client ℕ
score_client = record {
  Server = Scores;
  exists = λ key s. answer 0;
  set_ex = λ key value timeout s. (none, s);
  del = λ key s. (none, s);
  scan = λ pattern s. ([], none);
  z_add =
      λ key value member s. if text_beq host_a member then (none, put key value s) else (some 1, s);
  z_range_by_score = λ key least s. answer (in_range (s key) least);
}

abbrev score_of : Text → Text → Scores → Option ℕ
score_of k m s = if text_beq host_a m then s k else none

score_laws-add :
    (key member : Text) (value : ℕ) (s : Scores)
    → (score_client.z_add key value member s).0 ≡ none
    → (k m : Text)
    → score_of k m (score_client.z_add key value member s).1
      ≡ (if text_beq key k && text_beq member m then some value else score_of k m s)
unfolding put
score_laws-add key member value s done k m = elim (Bool-cases (text_beq host_a member)) [
  | inr e ↦
      let no : ◌≡◌ {A = Option ℕ} (some 1) none =
        ap (λ b. (if◌then◌else◌ {A = Option ℕ × Scores} b (none, put key value s) (some 1, s)).0)
          (sym e)
        ∙ done in
      absurd cc
  | inl e ↦ rw (e, ← (text_beq_iff host_a member).0 e) (ground arith)
]

score_laws-range :
    (o : Option ℕ) (least : ℕ) (m : Text)
    → ◌≡◌ {A = ℕ} (occurs m (in_range o least)) (elim (if text_beq host_a m then o else none) [
      | none ↦ 0
      | some value ↦ if leb least value then 1 else 0
    ])
unfolding in_range
score_laws-range none least m = ground arith
score_laws-range (some value) least m = ground arith

score_laws-found :
    (key : Text) (least : ℕ) (s : Scores) (found : List Text)
    → score_client.z_range_by_score key least s ≡ answer found
    → (m : Text)
    → ◌≡◌ {A = ℕ}
        (occurs m found)
        (elim (score_of key m s) [ none ↦ 0 | some value ↦ if leb least value then 1 else 0 ])
score_laws-found key least s found got m =
    ap (λ r. elim r [ answer names ↦ occurs m names | failed e ↦ 0 ]) (sym got)
    ∙ score_laws-range (s key) least m

score_laws : SetLaws score_client
unfolding put text_beq
score_laws = record {
  score = score_of;
  z_add_lem = score_laws-add;
  z_range_lem = λ key least s found got m. score_laws-found key least s found got m;
  del_lem = λ key k m s other. refl;
}

-- A driver of the service "s" whose node is that one.
abbrev driver_a : Driver
driver_a = record new_driver { service_name = codes "s"; node_id = host_a }

abbrev key_s : Text
key_s = set_key driver_a

-- The node beats at second 100 and is stopped.
abbrev scores_100 : Scores
scores_100 = (score_client.z_add key_s 100 host_a (λ k. none)).1

scores_100-Beats : Beats score_client key_s (λ k. none) ((100000000000, host_a) ∷ []) scores_100
unfolding put text_beq unregister z_register
scores_100-Beats =
    stopped driver_a (λ e. absurd cc) (beaten 100000000000 driver_a refl none_yet refl)

-- A server with the time that each key has left.
abbrev Lives : Type 0
Lives = Text → Option ℕ

less : ℕ → Option ℕ → Option ℕ
less t none = none
less t (some ttl) = if ltb t ttl then some (ttl - t) else none

less-lt : (t ttl : ℕ) → t < ttl → less t (some ttl) ≡ some (ttl - t)
unfolding less
less-lt t ttl small = ground arith

is_some-iff_count :
    (o : Option ℕ) (n : ℕ)
    → ◌≡◌ {A = Reply ℕ ℕ} (answer (if is_some o then 1 else 0)) (answer n)
    → (n == 0) ≡ not (is_some o)
is_some-iff_count o n found =
    ap (λ r. elim r [ answer k ↦ k == 0 | failed e ↦ true ]) (sym found) ∙ counted o
  where
    counted : (o : Option ℕ) → ((if is_some o then 1 else 0) == 0) ≡ not (is_some o)
    counted none = refl
    counted (some _) = refl

abbrev key_client : Client ℕ
key_client = record {
  Server = Lives;
  exists = λ key s. answer (if is_some (s key) then 1 else 0);
  set_ex = λ key value ttl s. (none, put key (whole_seconds ttl) s);
  del = λ key s. (none, s);
  scan = λ pattern s. ([], none);
  z_add = λ key value member s. (none, s);
  z_range_by_score = λ key least s. answer [];
}

key_laws : KeyLaws key_client
unfolding put less
key_laws = record {
  left = λ key s. s key;
  pass = λ t s k. less t (s k);
  set_ex_lem = λ key value ttl s some_time done. rw ((text_beq_iff key key).1 refl) refl;
  pass_lem = λ t ttl key s alive small. ap (less t) alive ∙ less-lt t ttl small;
  exists_lem = λ key n s found. is_some-iff_count (s key) n found;
}

is_none-score_of : (m : Text) → score_of key_s m (λ k. none) ≡ none
is_none-score_of m = ground arith

z_get_nodes-alive_example : occurs host_a (host_a ∷ []) ≡ 1
unfolding put text_beq z_get_nodes in_range score_laws
z_get_nodes-alive_example =
    z_get_nodes-alive score_client score_laws key_s (λ k. none) is_none-score_of 103000000000
      driver_a (host_a ∷ []) scores_100-Beats refl refl host_a

-- The node is registered, beats after two seconds, and a second passes.
abbrev fresh : Lives
fresh = put host_a (whole_seconds 5000000000) (λ k. none)

abbrev lives_a : Lives
lives_a =
    key_laws.pass 1000000000
      (put host_a (whole_seconds 5000000000) (key_laws.pass 2000000000 fresh))

lives_a-Beating : Beating key_client key_laws driver_a lives_a (0 + 1000000000)
unfolding put less text_beq register key_laws whole_seconds
lives_a-Beating =
    passed 1000000000
      (renewed (codes "u") (passed 2000000000 (registered {s = λ k. none} refl) (omega arith)) refl)
      (omega arith)

Beating-alive_example :
    (key_laws.left host_a lives_a ≡ some 4000000000)
    × ((uuid : Text) → (register key_client uuid driver_a lives_a).1 ≡ driver_a)
unfolding whole_seconds
Beating-alive_example =
    Beating-alive key_client key_laws driver_a refl (omega arith) lives_a-Beating
