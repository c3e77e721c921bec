-- ===== src/NodePool/Serving.antt =====
-- When Start of nodepool/nodepool.go returns.
use go_dispatch.NodePool.Complete.{AllKnown}
use go_dispatch.NodePool.Update.{SameNodes}
use go_dispatch.NodePool.Tracking.{IsDistinct}
use go_dispatch.NodePool.Converging.{
  started-IsFollowing, update-HasFollowed, HasFollowed, refreshes-append, IsFollowing, AreFine,
}
use go_dispatch.NodePool.Life.{pool_start, refresh, refreshes, Answer}
use go_dispatch.NodePool.Starting.{
  still_waiting, serving, refused, wait_steady, PoolStart, start_pool,
}
use go_dispatch.Ring.{replication_factor}
use go_dispatch.Ring.Complete.{NoCollisions}
use go_dispatch.Base.Keys.{Text}
use go_dispatch.Base.Outcome.{ok, Returns-inv, Returns, ◌>>=◌}
use go_dispatch.NodePool.{new_node_pool, NodePool, steady, upgrade}
use go_dispatch.Base.Shared.{
  Option-cases, is_some, All, ℕ, ◌≤◌, ◌≡◌, ◌∙◌, inl, inr, true, false, none, some, List, [], ◌∷◌,
  ◌++◌,
}

module _ (sum64 : Text → ℕ) (IsKnown : Text → Type 0) (apart : NoCollisions sum64 IsKnown) (n : ℕ)
    (few : n ≤ replication_factor) (E : Type 0) where
  -- Start has returned without an error, on a pool that is steady.
  abbrev pub IsServing : Text → PoolStart E → Type 0
  IsServing id (refused e np) = ⊥
  IsServing id (serving np) = IsFollowing sum64 IsKnown n id np × (np.state ≡ some steady)
  IsServing id (still_waiting np) = ⊥

  abbrev pub AllFine : List (List Answer) → Type 0
  AllFine waits = All (AreFine sum64 IsKnown apart n few) waits

  steady_serves :
      (waits : List (List Answer)) (id : Text) (np : NodePool)
      → IsFollowing sum64 IsKnown n id np
      → np.state ≡ some steady
      → Returns (IsServing id) (wait_steady sum64 {E = E} waits np)
  unfolding wait_steady
  steady_serves [] id np f is_steady = rw is_steady (f, is_steady)
  steady_serves (rounds ∷ waits) id np f is_steady = rw is_steady (f, is_steady)

  fine_parts :
      (answers more : List Answer)
      → AreFine sum64 IsKnown apart n few (answers ++ more)
      → AreFine sum64 IsKnown apart n few answers × AreFine sum64 IsKnown apart n few more
  fine_parts [] more fine = (tt, fine)
  fine_parts ((now, none) ∷ answers) more fine = fine_parts answers more fine
  fine_parts ((now, some nodes) ∷ answers) more (distinct, known, fine) =
      let (fine', fine'') = fine_parts answers more fine in ((distinct, known, fine'), fine'')

  -- Between two rounds of a pool that was started.
  abbrev IsUp : Text → NodePool → Type 0
  IsUp id np = IsFollowing sum64 IsKnown n id np × (is_some np.state ≡ true)

  refreshes-IsUp :
      (answers : List Answer) (id : Text) (np : NodePool)
      → IsUp id np
      → AreFine sum64 IsKnown apart n few answers
      → Returns (IsUp id) (refreshes sum64 answers np)
  unfolding refreshes refresh
  refreshes-IsUp [] id np up fine = up
  refreshes-IsUp ((now, none) ∷ answers) id np up fine = refreshes-IsUp answers id np up fine
  refreshes-IsUp ((now, some nodes) ∷ answers) id np up (distinct, known, fine) =
      let (np', e, h) =
        Returns-inv (HasFollowed sum64 IsKnown n id nodes np) _
          (update-HasFollowed sum64 IsKnown apart n few now id np nodes up.0 distinct known) in
      rw e (refreshes-IsUp answers id np' (h.following, h.stored) fine)

  -- After two updates with the same nodes Start returns.
  twice_serves :
      (now later : ℕ) (id : Text) (np : NodePool) (one two : List Text) (rest : List (List Answer))
      → IsUp id np
      → AreFine sum64 IsKnown apart n few ((now, some one) ∷ (later, some two) ∷ [])
      → SameNodes one two
      → Returns (IsServing id) (
          refreshes sum64 ((now, some one) ∷ (later, some two) ∷ []) np >>= λ np'.
          wait_steady sum64 {E = E} rest np')
  unfolding refreshes refresh
  twice_serves now later id np one two rest up (distinct, known, (distinct', known', _)) same =
      let (np', e, h) =
        Returns-inv (HasFollowed sum64 IsKnown n id one np) _
          (update-HasFollowed sum64 IsKnown apart n few now id np one up.0 distinct known) in
      let (np'', e', h') = Returns-inv (HasFollowed sum64 IsKnown n id two np') _ (
        update-HasFollowed sum64 IsKnown apart n few later id np' two h.following distinct'
          known') in
      rw (e, e') (steady_serves rest id np'' h'.following (h'.steady λ x. h.same x ∙ same x))

  -- The rounds of a wait whose last two answers hold the same nodes.
  rounds_serve :
      (now later : ℕ) (id : Text) (np : NodePool) (rounds : List Answer) (one two : List Text)
      (rest : List (List Answer))
      → IsUp id np
      → AreFine sum64 IsKnown apart n few (rounds ++ (now, some one) ∷ (later, some two) ∷ [])
      → SameNodes one two
      → Returns (IsServing id) (
          refreshes sum64 (rounds ++ (now, some one) ∷ (later, some two) ∷ []) np >>= λ np'.
          wait_steady sum64 {E = E} rest np')
  rounds_serve now later id np rounds one two rest up fine same =
      let (fine', twice) = fine_parts rounds _ fine in
      let (np', e, up') = Returns-inv (IsUp id) _ (refreshes-IsUp rounds id np up fine') in
      rw
        (
          refreshes-append sum64 IsKnown apart n few rounds
              ((now, some one) ∷ (later, some two) ∷ []) np,
          e,
        )
        (twice_serves now later id np' one two rest up' twice same)

  -- A wait of Start ends at once on a steady pool, and else with what its rounds lead to.
  wait_steps :
      (id : Text) (np : NodePool) (rounds : List Answer) (waits : List (List Answer))
      → IsUp id np
      → Returns
          (IsServing id)
          (refreshes sum64 rounds np >>= λ np'. wait_steady sum64 {E = E} waits np')
      → Returns (IsServing id) (wait_steady sum64 {E = E} (rounds ∷ waits) np)
  unfolding wait_steady
  wait_steps id np rounds waits (f, stored) later = elim (Option-cases np.state) [
    | inl missing ↦ absurd cc
    | inr (steady, e) ↦ rw e (f, e)
    | inr (upgrade, e) ↦ rw e later
  ]

  wait_steady-IsServing :
      (before : List (List Answer)) (now later : ℕ) (id : Text) (np : NodePool)
      (rounds : List Answer) (one two : List Text) (rest : List (List Answer))
      → IsUp id np
      → AllFine before
      → AreFine sum64 IsKnown apart n few (rounds ++ (now, some one) ∷ (later, some two) ∷ [])
      → SameNodes one two
      → Returns (IsServing id) (
          wait_steady sum64 {E = E}
            (before ++ (rounds ++ (now, some one) ∷ (later, some two) ∷ []) ∷ rest)
            np)
  wait_steady-IsServing [] now later id np rounds one two rest up fine last same =
      wait_steps id np _ rest up (rounds_serve now later id np rounds one two rest up last same)
  wait_steady-IsServing (wait ∷ before) now later id np rounds one two rest up fine last same =
      wait_steps id np wait _ up (
        let (np', e, up') = Returns-inv (IsUp id) _ (refreshes-IsUp wait id np up fine.0) in
        rw e
          (wait_steady-IsServing before now later id np' rounds one two rest up' fine.1 last same))

  -- Start of a new pool, in the mode that does not count loads and with at most 50 replicas for a
  -- node, on a driver that answers with known nodes none of which it names twice, or with errors,
  -- where no two of the first 50 replicas of known nodes share a point on the ring. If while Start sleeps the last two rounds
  -- answer with the same nodes, in any order, then Start returns after that sleep at the latest,
  -- without an error; when it returns the pool is steady, its ring lists just the nodes that it
  -- remembers, and has a point for each of their replicas.
  pub start_pool-IsServing :
      (start now later : ℕ) (id : Text) (first : List Text) (before : List (List Answer))
      (rounds : List Answer) (one two : List Text) (rest : List (List Answer))
      → IsDistinct first
      → AllKnown IsKnown first
      → AllFine before
      → AreFine sum64 IsKnown apart n few (rounds ++ (now, some one) ∷ (later, some two) ∷ [])
      → SameNodes one two
      → Returns (IsServing id) (
          start_pool sum64 {E = E} start none id
            (ok first)
            (before ++ (rounds ++ (now, some one) ∷ (later, some two) ∷ []) ∷ rest)
            (new_node_pool n false))
  unfolding start_pool pool_start
  start_pool-IsServing start now later id first before rounds one two rest distinct known fine last
        same =
      let (np, e, h) = Returns-inv (HasFollowed sum64 IsKnown n id first _) _ (
        update-HasFollowed sum64 IsKnown apart n few start id
          (record (new_node_pool n false) { node_id = id; state = some upgrade }) first
          (started-IsFollowing sum64 IsKnown apart n few id) distinct known) in
      rw e (
        wait_steady-IsServing before now later id np rounds one two rest (h.following, h.stored)
          fine last same)
