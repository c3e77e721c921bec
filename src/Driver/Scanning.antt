-- ===== src/Driver/Scanning.antt =====
-- GetNodes of redisdriver.go where the scan fails, and the ring of the node pool.
use go_dispatch.NodePool.{NodePool}
use go_dispatch.Driver.{Driver, answer, Client, Reply, failed}
use go_dispatch.Base.Keys.{Text, text_eq}
use go_dispatch.Base.Shared.{All, ℕ, ◌≡◌, Option, none, some, List}

-- What waitingForHashRing makes of an answer: an error is logged.
abbrev pub answer_of : {E : Type 0} → Reply E (List Text) → Option (List Text)
answer_of (answer nodes) = some nodes
answer_of (failed e) = none

module _ {E : Type 0} (client : Client E) (sum64 : Text → ℕ) where
  -- While Next is true there is no error.
  abbrev pub NoErrors : List (Text × Option E) → Type 0
  NoErrors = All (λ (key, error). error ≡ none)
