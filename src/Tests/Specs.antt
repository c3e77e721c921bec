-- ===== src/Tests/Specs.antt =====
-- The theorems on the parser at specs of five fields, with a zone and without one.
use go_dispatch.Fields.{wrong_count}
use go_dispatch.Parser.Delay.{constant_delay_next-IsRegular, IsRegular}
use go_dispatch.Parser.Standard.{parse_standard-seconds, seconds_options, parse_standard}
use go_dispatch.Parser.Sound.{parse-IsSound, IsSound}
use go_dispatch.Base.Int.{pos, ℤ}
use go_dispatch.Parser.{parse}
use go_dispatch.Base.Keys.{codes, text_beq, Text}
use go_dispatch.Base.Outcome.{err, Ensures}
use go_dispatch.Base.Strings.{fields_func, fields, has_prefix, index_byte}
use go_dispatch.Base.Shared.{if◌then◌else◌, ℕ, ◌+◌, ◌≡◌, refl, Option, none, some, [], ◌∷◌, arith}

-- A database of zones that knows one, and no durations.
abbrev zone_of : Text → Option ℕ
zone_of name = if text_beq name (codes "UTC") then some 0 else none

abbrev no_durations : Text → Option ℤ
no_durations s = none

-- Minute | Hour | Dom | Month | Dow | Descriptor
abbrev standard : ℕ
standard = 4 + 8 + 16 + 32 + 64 + 256

parse-IsSound_example :
    Ensures
      (IsSound ℕ 0 zone_of no_durations)
      (parse ℕ 0 zone_of no_durations standard (codes "TZ=UTC 5 4 * * *"))
unfolding index_byte
parse-IsSound_example =
    parse-IsSound ℕ 0 zone_of no_durations standard (codes "TZ=UTC 5 4 * * *") (λ _. refl)

parse_standard-seconds_example :
    (parse_standard ℕ 0 zone_of no_durations (codes "5 * * * 1-3")
      ≡ parse ℕ 0 zone_of no_durations seconds_options (codes "0 5 * * * 1-3"))
    × (parse_standard ℕ 0 zone_of no_durations (codes "* * *")
        ≡ err (wrong_count 5 5 3 (codes "*" ∷ codes "*" ∷ codes "*" ∷ [])))
unfolding has_prefix fields fields_func
parse_standard-seconds_example = (
  (parse_standard-seconds ℕ 0 zone_of no_durations b'5' (codes " * * * 1-3") refl refl refl).0 refl,
  ((parse_standard-seconds ℕ 0 zone_of no_durations b'*' (codes " * *") refl refl refl).1
      (λ e. absurd (omega arith))).0,
)

constant_delay_next-IsRegular_example : IsRegular (pos 2500000000) 7300000000
constant_delay_next-IsRegular_example = constant_delay_next-IsRegular (pos 2500000000) 7300000000
