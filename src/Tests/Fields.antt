-- ===== src/Tests/Fields.antt =====
-- The theorems on the fields of a cron spec at fields of the bounds of minutes.
use go_dispatch.Base.Keys.{codes}
use go_dispatch.Fields.BitRange.{get_bits-has, on_step}
use go_dispatch.Fields.{get_range, minutes, get_bits}
use go_dispatch.Fields.Range.{get_range-IsRange, IsRange}
use go_dispatch.Base.Outcome.{Ensures}
use go_dispatch.Base.Bits.{has}
use go_dispatch.Base.Shared.{◌≡◌, arith}

get_bits-has_example : has (get_bits 5 20 5) 15 ≡ on_step 5 20 5 15
get_bits-has_example =
    get_bits-has 5 20 5 15 (omega arith) (omega arith) (omega arith) (omega arith)

get_range-IsRange_example : Ensures (IsRange minutes) (get_range (codes "5-20/5") minutes)
get_range-IsRange_example = get_range-IsRange (codes "5-20/5") minutes (omega arith)
