-- ===== src/Tests/Wrappers.antt =====
-- The theorems on the wrappers of chain.go at two calls of one job.
use go_dispatch.Cron.Skip.{
  skip, receive, SkipReach-IsExclusive, skipped, IsExclusive, SkipState, SkipReach, running, move,
  later, wrapped, invoke,
}
use go_dispatch.Base.Shared.{refl, [], ◌∷◌, arith}

-- The first call runs, and the second is skipped.
abbrev one_skipped : SkipState
one_skipped = record { channel = 0; calls = running ∷ skipped ∷ [] }

one_skipped-SkipReach : SkipReach one_skipped
one_skipped-SkipReach =
    later (later (later (later wrapped invoke) invoke) (move 0 refl (receive (omega arith))))
      (move 1 refl (skip refl))

SkipReach-IsExclusive_example : IsExclusive one_skipped
SkipReach-IsExclusive_example = SkipReach-IsExclusive one_skipped-SkipReach
