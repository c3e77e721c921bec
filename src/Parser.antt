-- ===== src/Parser.antt =====
-- cron/parser.go: from the text of a schedule to the schedule. `time.LoadLocation` (the zone
-- database) and `time.ParseDuration` are the parameters `load_location` and `parse_duration`.
pub mod Options
pub mod Normalize
pub mod Sound
pub mod Delay
pub mod Standard
use go_dispatch.Spec.{SpecSchedule}
use Prim.Native.Nat.{bit_and, bit_or}
use go_dispatch.Base.Keys.{Text, text_beq, codes}
use go_dispatch.Base.Int.{ℤ, pos, pos_part, ltb_ℤ}
use go_dispatch.Base.Outcome.{Outcome, ok, err, panic, ◌>>=◌, or_panic}
use go_dispatch.Base.Bits.{has}
use go_dispatch.Base.Strings.{fields, has_prefix, index_byte, trim_space}
use go_dispatch.Fields.{
  ParseError, empty_spec, bad_location, no_descriptors, multiple_optionals, wrong_count,
  unknown_optional, bad_duration, unrecognized_descriptor, seconds, minutes, hours, dom, months,
  dow, all, get_field,
}
use go_dispatch.Base.Shared.{
  ltb, leb, ◌==◌, if◌then◌else◌, ==_iff, Bool-cases, Option-cases, is_some, All-mono, All-set,
  All-get_elem?, length-set, length, get_elem?, set, take, drop, remove_nth, All, length-append,
  All-append, get_elem?-lt, length-remove_nth, All-remove_nth, ◌!◌, get_elem?-!, count,
  count-append, count-remove_nth, count_index, count-pos, count-zero, count_by, count_by-append,
  count_by-set, count_by-find, ℕ, zero, suc, ◌+◌, ◌-◌, ◌*◌, ◌/◌, ◌%◌, ◌^◌, ◌≤◌, ◌<◌, ◌≡◌, refl, sym,
  ap, ◌∙◌, ◌≢◌, ◌↔◌, ◌⊎◌, inl, inr, Bool, true, false, not, ◌&&◌, ◌||◌, Option, none, some, List,
  [], ◌∷◌, ◌++◌, map, arith,
}

-- `options & place > 0`
unfoldable pub includes : ℕ → ℕ → Bool
includes options place = ltb 0 (bit_and place options)

-- `places`, each with its entry of `defaults`.
abbrev pub places : List (ℕ × Text)
places =
    (Options.second, codes "0")
    ∷ (Options.minute, codes "0")
    ∷ (Options.hour, codes "0")
    ∷ (Options.dom, codes "*")
    ∷ (Options.month, codes "*")
    ∷ (Options.dow, codes "*")
    ∷ []

-- A Parser is its options; two optional fields make NewParser panic.
unfoldable pub new_parser : ℕ → Outcome ParseError ℕ
new_parser options =
    if includes options Options.dow_optional && includes options Options.second_optional
    then panic
    else ok options

-- The number of places that the options include.
wanted : ℕ → List (ℕ × Text) → ℕ
wanted options [] = 0
wanted options ((place, _) ∷ rest) =
    let more = wanted options rest in if includes options place then suc more else more

-- The loop over `places` that takes a field or a default for each; `fields[n]` may panic.
expand : ℕ → List (ℕ × Text) → List Text → Outcome ParseError (List Text)
expand options [] given = ok []
expand options ((place, default) ∷ rest) [] =
    let next = expand options rest [] >>= λ out. ok (default ∷ out) in
    if includes options place then panic else next
expand options ((place, default) ∷ rest) (field ∷ given) =
    let taken = expand options rest given >>= λ out. ok (field ∷ out) in
    let next = expand options rest (field ∷ given) >>= λ out. ok (default ∷ out) in
    if includes options place then taken else next

abbrev pub one_if : Bool → ℕ
one_if b = if b then 1 else 0

-- The optional field that was left out is put in its place.
fill_optional : ℕ → List Text → Outcome ParseError (List Text)
fill_optional options given =
    if includes options Options.dow_optional
    then ok (given ++ codes "*" ∷ [])
    else if includes options Options.second_optional
    then ok (codes "0" ∷ given)
    else err unknown_optional

-- The options with the field of each optional among them.
with_optionals : ℕ → ℕ
with_optionals options =
    let first =
      if includes options Options.second_optional then bit_or options Options.second else options in
    if includes first Options.dow_optional then bit_or first Options.dow else first

unfoldable pub normalize_fields : List Text → ℕ → Outcome ParseError (List Text)
unfolding with_optionals wanted fill_optional expand
normalize_fields given options =
    let options' = with_optionals options in
    let optionals =
      one_if (includes options Options.second_optional)
      + one_if (includes options Options.dow_optional) in
    let max = wanted options' places in
    let min = max - optionals in
    let filled =
      if ltb min max && length given == min then fill_optional options' given else ok given in
    if ltb 1 optionals
    then err multiple_optionals
    else if ltb (length given) min || ltb max (length given)
    then err (wrong_count min max (length given) given)
    else (filled >>= λ full. expand options' places full)

-- `Every`: nanoseconds, a whole number of seconds and one at least.
abbrev pub one_second : ℕ
one_second = 1000000000

unfoldable pub every : ℤ → ℕ
every duration =
    let d : ℕ = if ltb_ℤ duration (pos one_second) then one_second else pos_part duration in
    d - d % one_second

module _ {ℓ} (Location : Type ℓ) (local : Location) (load_location : Text → Option Location)
    (parse_duration : Text → Option ℤ) where
  pub data Schedule : Type ℓ where
    spec_schedule : SpecSchedule Location → Schedule
    constant_delay : ℕ → Schedule

  -- The schedules of the descriptors have their seconds and minutes at 0.
  at_minute_zero : ℕ → ℕ → ℕ → ℕ → Location → Outcome ParseError Schedule
  at_minute_zero hour dom' month dow' loc = ok (
      spec_schedule (record {
        second = 2 ^ seconds.min;
        minute = 2 ^ minutes.min;
        hour = hour;
        dom = dom';
        month = month;
        dow = dow';
        location = loc;
      }))

  parse_every : Text → Outcome ParseError Schedule
  parse_every descriptor =
      if has_prefix descriptor (codes "@every ")
      then (elim (parse_duration (drop 7 descriptor)) [
        | none ↦ err (bad_duration descriptor)
        | some duration ↦ ok (constant_delay (every duration))
      ])
      else err (unrecognized_descriptor descriptor)

  unfoldable pub parse_descriptor : Text → Location → Outcome ParseError Schedule
  unfolding at_minute_zero parse_every
  parse_descriptor d loc =
      if text_beq d (codes "@yearly") || text_beq d (codes "@annually")
      then at_minute_zero (2 ^ hours.min) (2 ^ dom.min) (2 ^ months.min) (all dow) loc
      else if text_beq d (codes "@monthly")
      then at_minute_zero (2 ^ hours.min) (2 ^ dom.min) (all months) (all dow) loc
      else if text_beq d (codes "@weekly")
      then at_minute_zero (2 ^ hours.min) (all dom) (all months) (2 ^ dow.min) loc
      else if text_beq d (codes "@daily") || text_beq d (codes "@midnight")
      then at_minute_zero (2 ^ hours.min) (all dom) (all months) (all dow) loc
      else if text_beq d (codes "@hourly")
      then at_minute_zero (all hours) (all dom) (all months) (all dow) loc
      else parse_every d

  -- The zone in front of a spec, and the spec after it. Without a blank behind the zone the slice
  -- `spec[eq+1 : i]` has the upper bound -1 and panics.
  extract_zone : Text → Outcome ParseError (Location × Text)
  extract_zone spec = do
    i ← or_panic (index_byte spec 32)
    eq ← or_panic (index_byte spec b'=')
    let zone = drop (eq + 1) (take i spec)
    elim (load_location zone) [
      | none ↦ err (bad_location zone)
      | some loc ↦ ok (loc, trim_space (drop i spec))
    ]

  -- The six fields, in the order of `places`.
  schedule_of : List Text → Location → Outcome ParseError Schedule
  schedule_of (f0 ∷ f1 ∷ f2 ∷ f3 ∷ f4 ∷ f5 ∷ []) loc = do
    second ← get_field f0 seconds
    minute ← get_field f1 minutes
    hour ← get_field f2 hours
    dayofmonth ← get_field f3 dom
    month ← get_field f4 months
    dayofweek ← get_field f5 dow
    ok (
        spec_schedule (record {
          second = second;
          minute = minute;
          hour = hour;
          dom = dayofmonth;
          month = month;
          dow = dayofweek;
          location = loc;
        }))
  schedule_of _ loc = panic

  parse_body : ℕ → Location × Text → Outcome ParseError Schedule
  parse_body options (loc, spec) =
      let descriptor =
        if includes options Options.descriptor
        then parse_descriptor spec loc
        else err (no_descriptors spec) in
      let six = normalize_fields (fields spec) options >>= λ full. schedule_of full loc in
      if has_prefix spec (codes "@") then descriptor else six

  unfoldable pub parse : ℕ → Text → Outcome ParseError Schedule
  unfolding extract_zone schedule_of parse_body
  parse options [] = err empty_spec
  parse options (c ∷ rest) =
      let spec = c ∷ rest in
      let zoned = extract_zone spec >>= parse_body options in
      if has_prefix spec (codes "TZ=") || has_prefix spec (codes "CRON_TZ=")
      then zoned
      else parse_body options (local, spec)
