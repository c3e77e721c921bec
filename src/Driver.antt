-- ===== src/Driver.antt =====
-- driver: driver.go, option.go, util.go and what redisdriver.go and rediszsetdriver.go share. The
-- client of Redis is a parameter, as are the random identifiers of uuid.
pub mod Redis
pub mod ZSet
pub mod Life
pub mod Renaming
pub mod Scanning
pub mod Alive
pub mod Beating
use go_dispatch.Base.Outcome.{ok, panic, Outcome}
use go_dispatch.Base.Keys.{codes, Text}
use go_dispatch.Base.Shared.{
  ltb, leb, ◌==◌, if◌then◌else◌, ==_iff, Bool-cases, Option-cases, is_some, All-mono, All-set,
  All-get_elem?, length-set, length, get_elem?, set, take, drop, remove_nth, All, length-append,
  All-append, get_elem?-lt, length-remove_nth, All-remove_nth, ◌!◌, get_elem?-!, count,
  count-append, count-remove_nth, count_index, count-pos, count-zero, count_by, count_by-append,
  count_by-set, count_by-find, ℕ, zero, suc, ◌+◌, ◌-◌, ◌*◌, ◌/◌, ◌%◌, ◌^◌, ◌≤◌, ◌<◌, ◌≡◌, refl, sym,
  ap, ◌∙◌, ◌≢◌, ◌↔◌, ◌⊎◌, inl, inr, Bool, true, false, not, ◌&&◌, ◌||◌, Option, none, some, List,
  [], ◌∷◌, ◌++◌, map, arith,
}

abbrev pub default_global_key_prefix : Text
default_global_key_prefix = codes "distributed-nodepool:"

abbrev pub get_key_pre : Text → Text → Text
get_key_pre global_key_prefix service_name = global_key_prefix ++ service_name ++ codes ":"

abbrev pub get_node_id : Text → Text → Text → Text
get_node_id global_key_prefix service_name uuid = get_key_pre global_key_prefix service_name ++ uuid

-- `GetStableJobStore` and `GetStableJobStoreTxKey`
abbrev pub get_stable_job_store : Text → Text → Text
get_stable_job_store global_key_prefix service_name =
    get_key_pre global_key_prefix service_name ++ codes "stable-jobs"

abbrev pub get_stable_job_store_tx_key : Text → Text → Text
get_stable_job_store_tx_key global_key_prefix service_name =
    get_key_pre global_key_prefix service_name ++ codes "TX:stable-jobs"

-- The Unix time of `now` less the duration, both in nanoseconds, for a time after 1970.
abbrev pub time_pre : ℕ → ℕ → ℕ
time_pre now pre_duration = (now - pre_duration) / 1000000000

-- The options by their type; `other_option` is one of a type that the drivers do not know.
-- Loggers are handles, numbers.
pub data DriverOption : Type 0 where
  timeout_option : ℕ → DriverOption
  logger_option : ℕ → DriverOption
  global_prefix_option : Text → DriverOption
  other_option : DriverOption

ends_with : ℕ → Text → Bool
ends_with c [] = false
ends_with c (x ∷ []) = x == c
ends_with c (x ∷ y ∷ ys) = ends_with c (y ∷ ys)

-- `NewGlobalPrefixOption`; 58 is the colon.
unfoldable pub new_global_prefix_option : Text → DriverOption
unfolding ends_with
new_global_prefix_option [] = global_prefix_option default_global_key_prefix
new_global_prefix_option (c ∷ cs) =
    if ends_with 58 (c ∷ cs)
    then global_prefix_option (c ∷ cs)
    else global_prefix_option (c ∷ cs ++ codes ":")

-- The fields of RedisDriver, and of RedisZSetDriver, which has the same. `alive` is the runtime
-- context, `none` before it is made and `some false` when it is cancelled; `beats` is how many
-- goroutines heartBeat were started.
pub record Driver : Type 0 where
  pub global_key_prefix : Text
  pub service_name : Text
  pub node_id : Text
  pub timeout : ℕ
  pub logger : ℕ
  pub started : Bool
  pub alive : Option Bool
  pub beats : ℕ

-- What a command that reads answers.
pub data Reply (E A : Type 0) : Type 0 where
  answer : A → Reply E A
  failed : E → Reply E A

-- The commands of the client: what they answer, and the server after them.
pub record Client (E : Type 0) : Type 1 where
  pub Server : Type 0
  pub exists : Text → Server → Reply E ℕ
  pub set_ex : Text → Text → ℕ → Server → Option E × Server
  pub del : Text → Server → Option E × Server
  -- What the iterator gives each time that its Next is true, with its Err then; and its Err when
  -- Next is false.
  pub scan : Text → Server → List (Text × Option E) × Option E
  pub z_add : Text → ℕ → Text → Server → Option E × Server
  pub z_range_by_score : Text → ℕ → Server → Reply E (List Text)

pub data DriverError (E : Type 0) : Type 0 where
  already_started : DriverError E
  client_failed : E → DriverError E

-- newRedisDriver and newRedisZSetDriver; the times are in nanoseconds.
abbrev pub new_driver : Driver
new_driver = record {
  global_key_prefix = default_global_key_prefix;
  service_name = [];
  node_id = [];
  timeout = 5000000000;
  logger = 0;
  started = false;
  alive = none;
  beats = 0;
}

unfoldable pub with_option : Driver → DriverOption → Driver
with_option d (timeout_option timeout) = record d { timeout = timeout }
with_option d (logger_option logger) = record d { logger = logger }
with_option d (global_prefix_option prefix) = record d { global_key_prefix = prefix }
with_option d other_option = d

with_options : Driver → List DriverOption → Driver
unfolding with_option
with_options d [] = d
with_options d (opt ∷ opts) = with_options (with_option d opt) opts

-- `Init`, with the identifier that uuid gives.
unfoldable pub init : Text → Text → List DriverOption → Driver → Driver
unfolding with_options
init uuid service_name opts d =
    let d' = with_options (record d { service_name = service_name }) opts in
    record d' { node_id = get_node_id d'.global_key_prefix d'.service_name uuid }

module _ {E : Type 0} {S : Type 0} where
  -- `Start`, where `register` is registerServiceNode.
  unfoldable pub start_with :
      (Driver → S → Option E × Driver × S) → Driver → S → Option (DriverError E) × Driver × S
  start_with register d s =
      let (error, d', s') = register (record d { alive = some true; started = true }) s in
      if d.started then (some already_started, d, s) else elim error [
        | some e ↦ (some (client_failed e), d', s')
        | none ↦ (none, record d' { beats = d'.beats + 1 }, s')
      ]

  -- A tick of heartBeat: an error is logged.
  unfoldable pub beat : (Driver → S → Option E × Driver × S) → Driver → S → Driver × S
  beat register d s = let (_, d', s') = register d s in (d', s')

-- `Stop`, which calls a nil function where the driver was never started.
unfoldable pub stop_driver : Driver → Outcome Text Driver
stop_driver d = elim d.alive [
  | none ↦ panic
  | some _ ↦ ok (record d { alive = some false; started = false })
]
