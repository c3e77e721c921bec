-- ===== src/Fields.antt =====
-- cron/spec.go and cron/parser.go: the bounds of the six fields of a schedule, and the expressions
-- for one field. A field becomes a set of bits in a 64-bit word.
pub mod BitRange
pub mod Range
use Prim.Native.Nat.{bit_and, bit_or}
use go_dispatch.Base.Keys.{Text, text_eq, text_beq, codes}
use go_dispatch.Base.Maps.{Map, lookup}
use go_dispatch.Base.Int.{ℤ, pos, negsuc}
use go_dispatch.Base.Outcome.{Outcome, ok, err, ◌>>=◌}
use go_dispatch.Base.Strings.{split, fields_func, to_lower, atoi}
use go_dispatch.Base.Shared.{
  ltb, leb, ◌==◌, if◌then◌else◌, ==_iff, Bool-cases, Option-cases, is_some, All-mono, All-set,
  All-get_elem?, length-set, length, get_elem?, set, take, drop, remove_nth, All, length-append,
  All-append, get_elem?-lt, length-remove_nth, All-remove_nth, ◌!◌, get_elem?-!, count,
  count-append, count-remove_nth, count_index, count-pos, count-zero, count_by, count_by-append,
  count_by-set, count_by-find, ℕ, zero, suc, ◌+◌, ◌-◌, ◌*◌, ◌/◌, ◌%◌, ◌^◌, ◌≤◌, ◌<◌, ◌≡◌, refl, sym,
  ap, ◌∙◌, ◌≢◌, ◌↔◌, ◌⊎◌, inl, inr, Bool, true, false, not, ◌&&◌, ◌||◌, Option, none, some, List,
  [], ◌∷◌, ◌++◌, map, arith,
}

-- The errors of the parser, one for each message, with what the message is about. The reason that
-- an error of the standard library gives, after the text that it is about, is left out.
pub data ParseError : Type 0 where
  empty_spec multiple_optionals unknown_optional : ParseError
  bad_location no_descriptors bad_duration unrecognized_descriptor : Text → ParseError
  wrong_count : (min max count : ℕ) → List Text → ParseError
  too_many_hyphens too_many_slashes bad_int zero_step : Text → ParseError
  negative_number : ℤ → Text → ParseError
  below_minimum above_maximum beyond_end : ℕ → ℕ → Text → ParseError

pub record Bounds : Type 0 where
  pub min : ℕ
  pub max : ℕ
  pub names : Option (Map Text ℕ)

abbrev pub seconds : Bounds
seconds = record { min = 0; max = 59; names = none }

abbrev pub minutes : Bounds
minutes = record { min = 0; max = 59; names = none }

abbrev pub hours : Bounds
hours = record { min = 0; max = 23; names = none }

abbrev pub dom : Bounds
dom = record { min = 1; max = 31; names = none }

abbrev pub months : Bounds
months = record {
  min = 1;
  max = 12;
  names = some (
      (codes "jan", 1)
      ∷ (codes "feb", 2)
      ∷ (codes "mar", 3)
      ∷ (codes "apr", 4)
      ∷ (codes "may", 5)
      ∷ (codes "jun", 6)
      ∷ (codes "jul", 7)
      ∷ (codes "aug", 8)
      ∷ (codes "sep", 9)
      ∷ (codes "oct", 10)
      ∷ (codes "nov", 11)
      ∷ (codes "dec", 12)
      ∷ []);
}

abbrev pub dow : Bounds
dow = record {
  min = 0;
  max = 6;
  names = some (
      (codes "sun", 0)
      ∷ (codes "mon", 1)
      ∷ (codes "tue", 2)
      ∷ (codes "wed", 3)
      ∷ (codes "thu", 4)
      ∷ (codes "fri", 5)
      ∷ (codes "sat", 6)
      ∷ []);
}

-- The bit 63, which says that a star stood in the expression.
abbrev pub star_bit : ℕ
star_bit = 2 ^ 63

-- Shifts and complement of 64-bit words.
abbrev shl64 : ℕ → ℕ → ℕ
shl64 x k = x * 2 ^ k % 2 ^ 64

abbrev not64 : ℕ → ℕ
not64 x = 2 ^ 64 - 1 - x

abbrev max_uint64 : ℕ
max_uint64 = 2 ^ 64 - 1

-- `for i := min; i <= max; i += step { bits |= 1 << i }`; the fuel bounds the rounds.
bits_loop : ℕ → ℕ → ℕ → ℕ → ℕ → ℕ
bits_loop zero bits i max step = bits
bits_loop (suc fuel) bits i max step =
    let rest = bits_loop fuel (bit_or bits (shl64 1 i)) ((i + step) % 2 ^ 64) max step in
    if leb i max then rest else bits

unfoldable pub get_bits : ℕ → ℕ → ℕ → ℕ
unfolding bits_loop
get_bits min max step =
    if step == 1
    then bit_and (not64 (shl64 max_uint64 (max + 1))) (shl64 max_uint64 min)
    else bits_loop (max + 1) 0 min max step

unfoldable pub all : Bounds → ℕ
all r = bit_or (get_bits r.min r.max 1) star_bit

unfoldable pub must_parse_int : Text → Outcome ParseError ℕ
must_parse_int expr = elim (atoi expr) [
  | none ↦ err (bad_int expr)
  | some (pos n) ↦ ok n
  | some (negsuc n) ↦ err (negative_number (negsuc n) expr)
]

named : Option (Map Text ℕ) → Text → Option ℕ
named none expr = none
named (some names) expr = lookup (to_lower expr) names

unfoldable pub parse_int_or_name : Text → Option (Map Text ℕ) → Outcome ParseError ℕ
unfolding named must_parse_int
parse_int_or_name expr names = elim (named names expr) [
  | some named_int ↦ ok named_int
  | none ↦ must_parse_int expr
]

abbrev is_star : Text → Bool
is_star s = text_beq s (codes "*") || text_beq s (codes "?")

-- The start, the end and the star bit of "low-high", before a step is read.
parse_low_high : Text → Text → List Text → Bounds → Outcome ParseError (ℕ × ℕ × ℕ)
parse_low_high expr low rest r = if is_star low then ok (r.min, r.max, star_bit) else do
  start ← parse_int_or_name low r.names
  elim rest [
    | [] ↦ ok (start, start, 0)
    | high ∷ [] ↦ parse_int_or_name high r.names >>= λ end'. ok (start, end', 0)
    | high ∷ more ∷ others ↦ err (too_many_hyphens expr)
  ]

-- The end, the step and the star bit, once a step is read.
parse_step : Text → List Text → Bool → Bounds → ℕ → ℕ → Outcome ParseError (ℕ × ℕ × ℕ)
parse_step expr [] single_digit r end' extra = ok (end', 1, extra)
parse_step expr (step_text ∷ []) single_digit r end' extra = do
  step ← must_parse_int step_text
  ok (if single_digit then r.max else end', step, if ltb 1 step then 0 else extra)
parse_step expr (step_text ∷ more ∷ others) single_digit r end' extra = err (too_many_slashes expr)

check_range : Text → Bounds → ℕ → ℕ → ℕ → ℕ → Outcome ParseError ℕ
check_range expr r start end' step extra =
    if ltb start r.min
    then err (below_minimum start r.min expr)
    else if ltb r.max end'
    then err (above_maximum end' r.max expr)
    else if ltb end' start
    then err (beyond_end start end' expr)
    else if step == 0
    then err (zero_step expr)
    else ok (bit_or (get_bits start end' step) extra)

-- `strings.Split` never answers an empty slice.
head_of : List Text → Text
head_of [] = []
head_of (s ∷ rest) = s

tail_of : List Text → List Text
tail_of [] = []
tail_of (s ∷ rest) = rest

unfoldable pub get_range : Text → Bounds → Outcome ParseError ℕ
unfolding parse_low_high parse_step check_range head_of tail_of
get_range expr r = do
  let range_and_step = split expr b'/'
  let low_and_high = split (head_of range_and_step) b'-'
  (start, end', extra) ← parse_low_high expr (head_of low_and_high) (tail_of low_and_high) r
  (end'', step, extra') ←
      parse_step expr (tail_of range_and_step) (length low_and_high == 1) r end' extra
  check_range expr r start end'' step extra'

field_loop : List Text → Bounds → ℕ → Outcome ParseError ℕ
field_loop [] r bits = ok bits
field_loop (expr ∷ ranges) r bits = do
  more ← get_range expr r
  field_loop ranges r (bit_or bits more)

unfoldable pub get_field : Text → Bounds → Outcome ParseError ℕ
unfolding field_loop
get_field field r = field_loop (fields_func field (λ c. c == b',')) r 0
