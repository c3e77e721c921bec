-- ===== src/Tests/Clusters.antt =====
-- The theorems on a cluster at rest, at two nodes that saw it come to rest in their own order.
use go_dispatch.Dcron.Lives.{HasLife, runners-life, Life}
use go_dispatch.NodePool.Starting.{start_pool}
use go_dispatch.NodePool.Serving.{start_pool-IsServing, IsServing}
use go_dispatch.Ring.Edits.{
  edited-canonical, last_edit, joins, leaves, Edit, edited, new_ring, IsSameRing,
}
use go_dispatch.Cron.{new}
use go_dispatch.Dcron.Share.{runners}
use go_dispatch.Dcron.Node.{RecentJobs, Node}
use go_dispatch.NodePool.Converging.{pool_life-HasConverged, HasConverged}
use go_dispatch.NodePool.Update.{SameNodes}
use go_dispatch.NodePool.Life.{pool_life, Answer}
use go_dispatch.NodePool.Tracking.{IsDistinct}
use go_dispatch.NodePool.Complete.{AllKnown}
use go_dispatch.NodePool.{new_node_pool, NodePool}
use go_dispatch.Base.Outcome.{ok, Returns-inv, Returns}
use go_dispatch.Tests.{all_below-true, all_below, host_b, host_a, weigh}
use go_dispatch.Ring.Complete.{NoCollisions}
use go_dispatch.Base.Keys.{codes, text_beq_iff, text_beq, decimal, Text, text_eq, nat_eq}
use go_dispatch.Ring.{replica_point, replication_factor}
use go_dispatch.Base.Shared.{
  ltb, ◌==◌, if◌then◌else◌, ==_iff, Bool-cases, ℕ, ◌+◌, ◌-◌, ◌*◌, ◌/◌, ◌%◌, ◌<◌, ◌≡◌, refl, sym, ap,
  ◌∙◌, ◌⊎◌, inl, inr, Bool, true, false, ◌&&◌, Option, none, some, List, [], ◌∷◌, ◌++◌, arith,
}

abbrev IsAb : Text → Type 0
IsAb x = (x ≡ host_a) ⊎ (x ≡ host_b)

-- The number that stands in a point of a host of one byte.
index_of : ℕ → ℕ
index_of p =
    let digits = p / 256 in
    if ltb digits 256 then digits - 48 else 10 * (digits % 256 - 48) + (digits / 256 - 48)

abbrev reads_back : Text → ℕ → ℕ → Bool
reads_back x byte i =
    index_of (replica_point weigh x i) == i && replica_point weigh x i % 256 == byte

a_reads_back : all_below replication_factor (reads_back host_a 97) ≡ true
unfolding weigh replica_point decimal index_of
a_reads_back = refl

b_reads_back : all_below replication_factor (reads_back host_b 98) ≡ true
unfolding weigh replica_point decimal index_of
b_reads_back = refl

and_parts : (a b : Bool) → (a && b) ≡ true → (a ≡ true) × (b ≡ true)
and_parts a b h = ground (arith, h)

read_byte :
    (byte i : ℕ)
    → all_below replication_factor (reads_back (byte ∷ []) byte) ≡ true
    → i < replication_factor
    → (replica_point weigh (byte ∷ []) i % 256 ≡ byte)
      × (index_of (replica_point weigh (byte ∷ []) i) ≡ i)
read_byte byte i test below =
    let t = all_below-true replication_factor (reads_back (byte ∷ []) byte) i test below in
    (
      (==_iff (replica_point weigh (byte ∷ []) i % 256) byte).0 (and_parts _ _ t).1,
      (==_iff (index_of (replica_point weigh (byte ∷ []) i)) i).0 (and_parts _ _ t).0,
    )

read_back :
    (x : Text) (i : ℕ)
    → IsAb x
    → i < replication_factor
    → (x ≡ replica_point weigh x i % 256 ∷ []) × (i ≡ index_of (replica_point weigh x i))
read_back x i (inl e) below =
    let (byte, index) = read_byte 97 i a_reads_back below in
    rw e (ap (λ b. b ∷ []) (sym byte), sym index)
read_back x i (inr e) below =
    let (byte, index) = read_byte 98 i b_reads_back below in
    rw e (ap (λ b. b ∷ []) (sym byte), sym index)

IsAb-NoCollisions : NoCollisions weigh IsAb
IsAb-NoCollisions x y i j kx ky p q e =
    let (x_is, i_is) = read_back x i kx p in
    let (y_is, j_is) = read_back y j ky q in
    (x_is ∙ ap (λ z. z % 256 ∷ []) e ∙ sym y_is, i_is ∙ ap index_of e ∙ sym j_is)

ab-IsDistinct : IsDistinct (host_a ∷ host_b ∷ [])
unfolding text_beq
ab-IsDistinct x = elim (Bool-cases (text_beq host_a x)) [
  | inl e ↦ rw (← (text_beq_iff host_a x).0 e) (omega arith)
  | inr e ↦ ground (arith, e)
]

IsAb-AllKnown : AllKnown IsAb (host_a ∷ host_b ∷ [])
IsAb-AllKnown x there = elim (Bool-cases (text_beq host_a x)) [
  | inl e ↦ inl (sym ((text_beq_iff host_a x).0 e))
  | inr e ↦ inr (sym ((text_beq_iff host_b x).0 (ground (arith, e, there))))
]

-- The answers after the first one, which named only the node itself.
abbrev rounds : List Answer
rounds = (5, none) ∷ []

abbrev ends : List Answer
ends = (6, some (host_b ∷ host_a ∷ [])) ∷ (9, some (host_a ∷ host_b ∷ [])) ∷ []

ba-SameNodes : SameNodes (host_b ∷ host_a ∷ []) (host_a ∷ host_b ∷ [])
ba-SameNodes x = ground arith

alone-IsDistinct : (id : Text) → IsDistinct (id ∷ [])
alone-IsDistinct id x = ground arith

alone_known : (id : Text) → IsAb id → AllKnown IsAb (id ∷ [])
alone_known id h x there = rw (← (text_beq_iff id x).0 (ground (arith, there))) h

abbrev HasLived : Text → Option ℕ × NodePool → Type 0
HasLived id (failed, np) = (failed ≡ none) × HasConverged weigh IsAb 1 (host_a ∷ host_b ∷ []) id np

lived :
    (id : Text)
    → IsAb id
    → Returns (HasLived id) (pool_life weigh 1 0 id (id ∷ []) (rounds ++ ends))
lived id h =
    pool_life-HasConverged weigh IsAb IsAb-NoCollisions 1 (omega arith) ℕ 0 6 9 id (id ∷ []) rounds
      (host_a ∷ host_b ∷ []) (host_b ∷ host_a ∷ []) (host_a ∷ host_b ∷ [])
      (alone-IsDistinct id, alone_known id h, tt) ab-IsDistinct IsAb-AllKnown ba-SameNodes
      (λ x. refl)

pool_life-HasConverged_example :
    Returns (HasLived host_a) (pool_life weigh 1 0 host_a (host_a ∷ []) (rounds ++ ends))
pool_life-HasConverged_example =
    pool_life-HasConverged weigh IsAb IsAb-NoCollisions 1 (omega arith) ℕ 0 6 9 host_a (host_a ∷ [])
      rounds (host_a ∷ host_b ∷ []) (host_b ∷ host_a ∷ []) (host_a ∷ host_b ∷ [])
      (alone-IsDistinct host_a, alone_known host_a (inl refl), tt) ab-IsDistinct IsAb-AllKnown
      ba-SameNodes (λ x. refl)

-- The pool that such a life leaves.
pool_at : (id : Text) → IsAb id → NodePool
pool_at id h =
    (Returns-inv (HasLived id) (pool_life weigh 1 0 id (id ∷ []) (rounds ++ ends)) (lived id h)).0.1

pool_at-HasConverged :
    (id : Text) (h : IsAb id) → HasConverged weigh IsAb 1 (host_a ∷ host_b ∷ []) id (pool_at id h)
unfolding pool_at
pool_at-HasConverged id h =
    (Returns-inv (HasLived id) (pool_life weigh 1 0 id (id ∷ []) (rounds ++ ends)) (lived id h)).2.1

-- Recent jobs that are kept in a list.
abbrev jobs_of : RecentJobs
jobs_of = record {
  State = List Text;
  add_job = λ name t now names. name ∷ names;
  pop_all_jobs = λ names. (names, []);
}

abbrev node_of : NodePool → Node jobs_of
node_of pool = record {
  table = record { jobs = []; cr = new [] };
  pool = pool;
  capacity_load = false;
  recent = some [];
  upgrading = false;
  running = true;
  rerun = [];
  executed = [];
}

abbrev job : Text
job = codes "job"

abbrev node_a : Node jobs_of
node_a = node_of (pool_at host_a (inl refl))

abbrev node_b : Node jobs_of
node_b = node_of (pool_at host_b (inr refl))

abbrev life_of : Text → Life
life_of id = record {
  id = id;
  start = 0;
  first = id ∷ [];
  earlier = rounds;
  now = 6;
  one = host_b ∷ host_a ∷ [];
  later = 9;
  two = host_a ∷ host_b ∷ [];
}

abbrev HasLivedThrough : Life × Node jobs_of → Type 0
HasLivedThrough entry =
    HasLife jobs_of weigh IsAb IsAb-NoCollisions 1 (omega arith) (omega arith)
      (host_a ∷ host_b ∷ []) ab-IsDistinct IsAb-AllKnown entry

pool_at-HasLife : (id : Text) (h : IsAb id) → HasLivedThrough (life_of id, node_of (pool_at id h))
unfolding pool_at
pool_at-HasLife id h =
    let (_, e, (none_failed, _)) =
      Returns-inv (HasLived id) (pool_life weigh 1 0 id (id ∷ []) (rounds ++ ends)) (lived id h) in
    record {
      life = record {
        fine = (alone-IsDistinct id, alone_known id h, tt);
        one = ba-SameNodes;
        two = λ x. refl;
      };
      lived = e ∙ ap (λ failed. ok (failed, pool_at id h)) none_failed;
      asks = refl;
    }

runners-life_example : runners jobs_of weigh (5, 5) job (node_a ∷ node_b ∷ []) ≡ 1
runners-life_example =
    runners-life jobs_of weigh IsAb IsAb-NoCollisions 1 (omega arith) (omega arith)
      (host_a ∷ host_b ∷ []) ab-IsDistinct IsAb-AllKnown (5, 5) job (life_of host_a) node_a
      ((life_of host_b, node_b) ∷ [])
      (pool_at-HasLife host_a (inl refl), (pool_at-HasLife host_b (inr refl), tt)) (λ x. refl)

-- The hosts "a" and "b" in two orders; in the second one "b" has left in between.
abbrev a_then_b : List Edit
a_then_b = joins host_a ∷ joins host_b ∷ []

abbrev b_then_a : List Edit
b_then_a = joins host_b ∷ leaves host_b ∷ joins host_a ∷ joins host_b ∷ []

same_last : (y : Text) → last_edit y false a_then_b ≡ last_edit y false b_then_a
same_last y = ground arith

edited-canonical_example :
    Returns
      (λ c.
        Returns
          (IsSameRing weigh IsAb IsAb-NoCollisions 1 (omega arith) a_then_b c)
          (edited weigh b_then_a (new_ring 1)))
      (edited weigh a_then_b (new_ring 1))
edited-canonical_example =
    edited-canonical weigh IsAb IsAb-NoCollisions 1 (omega arith) a_then_b b_then_a (omega arith)
      (inl refl, (inr refl, tt)) (inr refl, (inr refl, (inl refl, (inr refl, tt)))) same_last

-- The driver names the node alone when it starts, fails, then names both nodes twice.
start_pool-IsServing_example :
    Returns (IsServing weigh IsAb IsAb-NoCollisions 1 (omega arith) ℕ host_a) (
      start_pool weigh 0 none host_a
        (ok (host_a ∷ []))
        (rounds ∷ ends ∷ [])
        (new_node_pool 1 false))
start_pool-IsServing_example =
    start_pool-IsServing weigh IsAb IsAb-NoCollisions 1 (omega arith) ℕ 0 6 9 host_a (host_a ∷ [])
      (rounds ∷ []) [] (host_b ∷ host_a ∷ []) (host_a ∷ host_b ∷ []) [] (alone-IsDistinct host_a)
      (alone_known host_a (inl refl)) (tt, tt)
      (
        (λ x. omega (arith, ba-SameNodes x, ab-IsDistinct x)),
        (λ x there. IsAb-AllKnown x (omega (arith, there, ba-SameNodes x))),
        (ab-IsDistinct, IsAb-AllKnown, tt),
      )
      ba-SameNodes
