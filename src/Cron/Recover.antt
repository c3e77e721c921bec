-- ===== src/Cron/Recover.antt =====
-- cron/chain.go: the wrapper Recover, on jobs that may panic.
use go_dispatch.Base.Shared.{◌≡◌, refl, ◌⊎◌, inl, inr, arith}

pub data Ending : Type 0 where
  ended panicked : Ending

-- What a run of a job does to what it changes, and how it ends.
abbrev pub JobRun : Type 0 → Type 0
JobRun S = S → S × Ending

-- `Recover`, where `log` is what writing the panic to the logger does.
unfoldable pub recover : {S : Type 0} → (S → S) → JobRun S → JobRun S
recover log j s =
    let (s', ending) = j s in elim ending [ ended ↦ (s', ended) | panicked ↦ (log s', ended) ]

-- A job behind Recover never panics, does what the job does, and the panic of the job is logged
-- after that; a second Recover around it adds nothing.
recover_lem :
    {S : Type 0} (log log' : S → S) (j : JobRun S) (s : S)
    → ((recover log j s).1 ≡ ended) × (recover log' (recover log j) s ≡ recover log j s)
unfolding recover
recover_lem log log' j s = elim (Ending-cases (j s).1) [
  | inl e ↦ (ground (arith, e), ground (arith, e))
  | inr e ↦ (ground (arith, e), ground (arith, e))
]
  where
    Ending-cases : (e : Ending) → (e ≡ ended) ⊎ (e ≡ panicked)
    Ending-cases ended = inl refl
    Ending-cases panicked = inr refl
