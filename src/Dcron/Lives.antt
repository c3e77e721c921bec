-- ===== src/Dcron/Lives.antt =====
-- The nodes of a cluster from the start of their pools on: each activation runs on one of them.
use go_dispatch.NodePool.{NodePool}
use go_dispatch.NodePool.Diff.{occurs}
use go_dispatch.Dcron.Share.{runners}
use go_dispatch.Dcron.Cluster.{runners-one, IsResting}
use mathlib.Core.Path.{ap₂}
use go_dispatch.NodePool.Update.{SameNodes}
use go_dispatch.NodePool.Converging.{HasConverged, pool_life-HasConverged, AreFine}
use go_dispatch.NodePool.Complete.{AllKnown}
use go_dispatch.NodePool.Tracking.{IsDistinct}
use go_dispatch.Ring.{replication_factor}
use go_dispatch.Ring.Complete.{NoCollisions}
use go_dispatch.Base.Keys.{Text}
use go_dispatch.Dcron.Node.{Node, RecentJobs}
use go_dispatch.NodePool.Life.{pool_life, Answer}
use mathlib.Core.Path.{subst, ap₂}
use go_dispatch.Base.Outcome.{Returns, ok}
use go_dispatch.Base.Shared.{
  All, ℕ, ◌≤◌, ◌<◌, ◌≡◌, refl, sym, ap, ◌∙◌, false, Option, none, some, List, [], ◌∷◌, ◌++◌, map,
}

-- What the driver of one node answers: at its start, round after round, and twice at the end.
pub record Life : Type 0 where
  pub id : Text
  pub start : ℕ
  pub first : List Text
  pub earlier : List Answer
  pub now : ℕ
  pub one : List Text
  pub later : ℕ
  pub two : List Text

abbrev pub answers_of : Life → List Answer
answers_of l = l.earlier ++ (l.now, some l.one) ∷ (l.later, some l.two) ∷ []

module _ (r : RecentJobs) (sum64 : Text → ℕ) (IsKnown : Text → Type 0)
    (apart : NoCollisions sum64 IsKnown) (n : ℕ) (few : n ≤ replication_factor)
    (some_replica : 0 < n) (nodes : List Text) (distinct : IsDistinct nodes)
    (known : AllKnown IsKnown nodes) where
  -- The answers are fine, and the last two name the nodes of the cluster, in any order.
  pub record IsLife (l : Life) : Type 0 where
    pub fine : AreFine sum64 IsKnown apart n few ((l.start, some l.first) ∷ l.earlier)
    pub one : SameNodes l.one nodes
    pub two : SameNodes l.two nodes

  -- A node in the mode that does not count loads, whose pool is what is left of such a life.
  pub record HasLife (entry : Life × Node r) : Type 0 where
    pub life : IsLife entry.0
    pub lived :
        pool_life sum64 {E = ℕ} n entry.0.start entry.0.id entry.0.first (answers_of entry.0)
        ≡ ok (none, entry.1.pool)
    pub asks : entry.1.capacity_load ≡ false

  HasLife-IsResting :
      (l : Life) (m : Node r)
      → HasLife (l, m)
      → IsResting r sum64 IsKnown n nodes m × (m.pool.node_id ≡ l.id)
  HasLife-IsResting l m h =
      let rest : HasConverged sum64 IsKnown n nodes l.id m.pool =
        (subst
          (Returns (λ (answer : Option ℕ × NodePool).
            (answer.0 ≡ none) × HasConverged sum64 IsKnown n nodes l.id answer.1))
          h.lived
          (pool_life-HasConverged sum64 IsKnown apart n few ℕ l.start l.now l.later l.id l.first
            l.earlier nodes l.one l.two h.life.fine distinct known h.life.one h.life.two)).1 in
      (
        record {
          pool = subst (λ x. HasConverged sum64 IsKnown n nodes x m.pool) (sym rest.node_id) rest;
          asks = h.asks;
        },
        rest.node_id,
      )

  all-IsResting :
      (entries : List (Life × Node r))
      → All HasLife entries
      → All (IsResting r sum64 IsKnown n nodes) (map (λ (entry : Life × Node r). entry.1) entries)
  all-IsResting [] h = tt
  all-IsResting ((l, m) ∷ entries) (h, hs) = ((HasLife-IsResting l m h).0, all-IsResting entries hs)

  all-named :
      (entries : List (Life × Node r))
      → All HasLife entries
      → map (λ (m : Node r). m.pool.node_id) (map (λ (entry : Life × Node r). entry.1) entries)
        ≡ map (λ (entry : Life × Node r). entry.0.id) entries
  all-named [] h = refl
  all-named ((l, m) ∷ entries) (h, hs) =
      ap₂ (λ id ids. id ∷ ids) (HasLife-IsResting l m h).1 (all-named entries hs)

  -- The nodes of a cluster start their pools on drivers that answer with known nodes, none of which
  -- they name twice, or with errors, each in its own time and order, and in the end, twice in a
  -- row, with the nodes of the cluster. Where the nodes that started are just these, each once, an
  -- activation of a job is then run by one node and by no other. The mode that counts loads is off;
  -- the nodes have at least one replica each and at most 50, no two of which share a point.
  pub runners-life :
      (now : ℕ × ℕ) (name : Text) (l : Life) (m : Node r) (entries : List (Life × Node r))
      → All HasLife ((l, m) ∷ entries)
      → SameNodes (map (λ (entry : Life × Node r). entry.0.id) ((l, m) ∷ entries)) nodes
      → runners r sum64 now name (map (λ (entry : Life × Node r). entry.1) ((l, m) ∷ entries)) ≡ 1
  runners-life now name l m entries h same =
      runners-one r sum64 IsKnown apart n few some_replica nodes now name m
        (map (λ (entry : Life × Node r). entry.1) entries) (all-IsResting ((l, m) ∷ entries) h)
        distinct (λ x. ap (occurs x) (all-named ((l, m) ∷ entries) h) ∙ same x)
