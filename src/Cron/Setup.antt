-- ===== src/Cron/Setup.antt =====
-- cron/option.go and `New` of cron/cron.go.
use go_dispatch.Parser.Standard.{standard_options, seconds_options}
use go_dispatch.Cron.{Cron}
use go_dispatch.Cron.Chain.{JobWrapper}
use go_dispatch.Cron.{new}
use go_dispatch.Base.Shared.{ℕ, ◌≡◌, refl, Option, none, some, List, [], ◌∷◌}

-- A Parser with its options, or another value of the interface ScheduleParser, a handle.
pub data ScheduleParser : Type 0 where
  configured : ℕ → ScheduleParser
  foreign : ℕ → ScheduleParser

-- The options by their constructors. Zones and loggers are handles, numbers.
pub data CronOption : Type 0 where
  with_location : ℕ → CronOption
  with_seconds : CronOption
  with_parser : ScheduleParser → CronOption
  with_chain : List JobWrapper → CronOption
  with_logger : ℕ → CronOption

-- The scheduler with the fields that only options set. `none` is time.Local and DefaultLogger.
pub record CronSetup : Type 0 where
  pub cron : Cron
  pub location : Option ℕ
  pub parser : ScheduleParser
  pub logger : Option ℕ

-- What `New` starts from.
abbrev pub default_cron : CronSetup
default_cron = record {
  cron = new [];
  location = none;
  parser = configured standard_options;
  logger = none;
}

unfoldable pub with_cron_option : CronSetup → CronOption → CronSetup
with_cron_option c (with_location loc) = record c { location = some loc }
with_cron_option c with_seconds = record c { parser = configured seconds_options }
with_cron_option c (with_parser p) = record c { parser = p }
with_cron_option c (with_chain wrappers) = record c { cron = record c.cron { chain = wrappers } }
with_cron_option c (with_logger logger) = record c { logger = some logger }

unfoldable pub with_cron_options : CronSetup → List CronOption → CronSetup
unfolding with_cron_option
with_cron_options c [] = c
with_cron_options c (opt ∷ opts) = with_cron_options (with_cron_option c opt) opts

-- `New`
unfoldable pub new_cron : List CronOption → CronSetup
unfolding with_cron_options
new_cron opts = with_cron_options default_cron opts

-- The last value that `pick` finds, or `default`.
abbrev pub last_of {ℓ} : {A : Type ℓ} → (CronOption → Option A) → A → List CronOption → A
last_of pick default [] = default
last_of pick default (opt ∷ opts) =
    last_of pick (elim (pick opt) [ none ↦ default | some a ↦ a ]) opts

abbrev pub parser_in : CronOption → Option ScheduleParser
parser_in with_seconds = some (configured seconds_options)
parser_in (with_parser p) = some p
parser_in (with_location _) = none
parser_in (with_chain _) = none
parser_in (with_logger _) = none

abbrev pub chain_in : CronOption → Option (List JobWrapper)
chain_in (with_chain wrappers) = some wrappers
chain_in with_seconds = none
chain_in (with_parser _) = none
chain_in (with_location _) = none
chain_in (with_logger _) = none

abbrev pub location_in : CronOption → Option (Option ℕ)
location_in (with_location loc) = some (some loc)
location_in with_seconds = none
location_in (with_parser _) = none
location_in (with_chain _) = none
location_in (with_logger _) = none

-- Of each kind the last option decides, and where there is none what `c` has stays.
pub record IsLast (opts : List CronOption) (c c' : CronSetup) : Type 0 where
  pub parser : c'.parser ≡ last_of parser_in c.parser opts
  pub chain : c'.cron ≡ record c.cron { chain = last_of chain_in c.cron.chain opts }
  pub location : c'.location ≡ last_of location_in c.location opts

with_cron_options-IsLast :
    (opts : List CronOption) (c : CronSetup) → IsLast opts c (with_cron_options c opts)
unfolding with_cron_options
with_cron_options-IsLast [] c = record { parser = refl; chain = refl; location = refl }
with_cron_options-IsLast (with_location x ∷ opts) c =
    let rest = with_cron_options-IsLast opts (with_cron_option c (with_location x)) in
    record { parser = rest.parser; chain = rest.chain; location = rest.location }
with_cron_options-IsLast (with_parser x ∷ opts) c =
    let rest = with_cron_options-IsLast opts (with_cron_option c (with_parser x)) in
    record { parser = rest.parser; chain = rest.chain; location = rest.location }
with_cron_options-IsLast (with_chain x ∷ opts) c =
    let rest = with_cron_options-IsLast opts (with_cron_option c (with_chain x)) in
    record { parser = rest.parser; chain = rest.chain; location = rest.location }
with_cron_options-IsLast (with_logger x ∷ opts) c =
    let rest = with_cron_options-IsLast opts (with_cron_option c (with_logger x)) in
    record { parser = rest.parser; chain = rest.chain; location = rest.location }
with_cron_options-IsLast (with_seconds ∷ opts) c =
    let rest = with_cron_options-IsLast opts (with_cron_option c with_seconds) in
    record { parser = rest.parser; chain = rest.chain; location = rest.location }

-- In a scheduler made by New the last option of its kind decides on the parser, the zone and the
-- chain of wrappers, whatever the order of the others; WithSeconds and WithParser are of one kind.
-- Without such an option it is the standard parser, the local zone and a chain without wrappers,
-- so that nothing recovers the panic of a job. It has no entries and does not run.
pub new_cron-IsLast : (opts : List CronOption) → IsLast opts default_cron (new_cron opts)
unfolding new_cron
new_cron-IsLast opts = with_cron_options-IsLast opts default_cron
