-- ===== src/Base/Shared.antt =====
-- The library names that every module uses, passed on with the tests and the slice functions.
pub use go_dispatch.Base.Tests.{
  ltb, leb, ◌==◌, if◌then◌else◌, ==_iff, Bool-cases, Option-cases, is_some,
}
pub use go_dispatch.Base.Lists.{
  All-mono, All-set, All-get_elem?, length-set, length, get_elem?, set, take, drop, remove_nth, All,
  length-append, All-append, get_elem?-lt, length-remove_nth, All-remove_nth, ◌!◌, get_elem?-!,
  count, count-append, count-remove_nth, count_index, count-pos, count-zero, count_by,
  count_by-append, count_by-set, count_by-find,
}
pub use Prim.Native.Nat.{ℕ, zero, suc, ◌+◌, ◌-◌, ◌*◌, ◌/◌, ◌%◌, ◌^◌, ◌≤◌, ◌<◌}
pub use mathlib.Core.Path.{◌≡◌, refl, sym, ap, ◌∙◌}
pub use mathlib.Core.Logic.{◌≢◌, ◌↔◌, ◌⊎◌, inl, inr}
pub use mathlib.Core.Bool.{Bool, true, false, not, ◌&&◌, ◌||◌}
pub use mathlib.Core.Option.{Option, none, some}
pub use mathlib.Core.List.{List, [], ◌∷◌, ◌++◌, map}
pub use native.Mathlib.Omega.{arith}
