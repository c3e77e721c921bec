-- ===== src/Parser/Options.antt =====
-- cron/parser.go: the constants of type ParseOption, by the positions of their bits.
use go_dispatch.Base.Shared.{ℕ, ◌^◌}

abbrev pub second : ℕ
second = 2 ^ 0

abbrev pub second_optional : ℕ
second_optional = 2 ^ 1

abbrev pub minute : ℕ
minute = 2 ^ 2

abbrev pub hour : ℕ
hour = 2 ^ 3

abbrev pub dom : ℕ
dom = 2 ^ 4

abbrev pub month : ℕ
month = 2 ^ 5

abbrev pub dow : ℕ
dow = 2 ^ 6

abbrev pub dow_optional : ℕ
dow_optional = 2 ^ 7

abbrev pub descriptor : ℕ
descriptor = 2 ^ 8
