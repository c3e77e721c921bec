-- ===== src/Dcron/Setup.antt =====
-- dcron/option.go and the constructors of dcron/dcron.go.
use go_dispatch.Cron.Setup.{
  with_chain, with_parser, with_seconds, with_location, new_cron, with_logger, CronOption,
  ScheduleParser,
}
use go_dispatch.Base.Outcome.{ok}
use go_dispatch.Dcron.Share.{runners, runs}
use go_dispatch.Base.Keys.{Text}
use go_dispatch.Dcron.Node.{allow_this_node_run, execute, run_job, Node, RecentJobs}
use go_dispatch.Cron.Chain.{JobWrapper}
use go_dispatch.NodePool.{new_node_pool, NodePool}
use go_dispatch.Base.Outcome.{◌>>=◌}
use go_dispatch.Base.Shared.{
  if◌then◌else◌, length, All, length-append, ℕ, ◌≡◌, refl, ap, Bool, true, false, ◌||◌, Option,
  none, some, List, [], ◌∷◌, ◌++◌, map, arith,
}

-- The options by their constructors; durations, loggers, zones and recover functions are numbers.
pub data DcronOption : Type 0 where
  with_dcron_logger : ℕ → DcronOption
  with_node_update_duration : ℕ → DcronOption
  with_hash_replicas : ℕ → DcronOption
  with_capacity_load : DcronOption
  cron_option_location : ℕ → DcronOption
  cron_option_seconds : DcronOption
  cron_option_parser : ScheduleParser → DcronOption
  cron_option_chain : List JobWrapper → DcronOption
  with_recover_func : ℕ → DcronOption
  with_cluster_stable : ℕ → DcronOption

-- The fields that the options set; a logger of `none` is dlog.DefaultLogger().
pub record Setup : Type 0 where
  pub logger : Option ℕ
  pub node_update_duration : ℕ
  pub hash_replicas : ℕ
  pub capacity_load : Bool
  pub cron_options : List CronOption
  pub recover_func : Option ℕ
  pub time_window : Option ℕ

-- `newDcron`: three seconds, and 50 replicas.
abbrev pub new_dcron : Setup
new_dcron = record {
  logger = none;
  node_update_duration = 3000000000;
  hash_replicas = 50;
  capacity_load = false;
  cron_options = [];
  recover_func = none;
  time_window = none;
}

-- An option of the scheduler goes behind those before it.
abbrev add_cron_option : Setup → CronOption → Setup
add_cron_option d opt = record d { cron_options = d.cron_options ++ opt ∷ [] }

unfoldable pub with_dcron_option : Setup → DcronOption → Setup
with_dcron_option d (with_dcron_logger logger) =
    add_cron_option (record d { logger = some logger }) (with_logger logger)
with_dcron_option d (with_node_update_duration duration) = record d {
  node_update_duration = duration;
}
with_dcron_option d (with_hash_replicas replicas) = record d { hash_replicas = replicas }
with_dcron_option d with_capacity_load = record d { capacity_load = true }
with_dcron_option d (cron_option_location loc) = add_cron_option d (with_location loc)
with_dcron_option d cron_option_seconds = add_cron_option d with_seconds
with_dcron_option d (cron_option_parser p) = add_cron_option d (with_parser p)
with_dcron_option d (cron_option_chain wrappers) = add_cron_option d (with_chain wrappers)
with_dcron_option d (with_recover_func f) = record d { recover_func = some f }
with_dcron_option d (with_cluster_stable window) = record d { time_window = some window }

unfoldable pub with_dcron_options : Setup → List DcronOption → Setup
unfolding with_dcron_option
with_dcron_options d [] = d
with_dcron_options d (opt ∷ opts) = with_dcron_options (with_dcron_option d opt) opts

module _ (r : RecentJobs) (new_packer : ℕ → r.State) where
  -- The node of a setup. The parser and the zone of the scheduler are what `add_named_job` has as
  -- a parameter.
  abbrev pub node_of : Setup → Node r
  node_of d = record {
    table = record { jobs = []; cr = (new_cron d.cron_options).cron };
    pool = new_node_pool d.hash_replicas d.capacity_load;
    capacity_load = d.capacity_load;
    recent = elim d.time_window [ none ↦ none | some window ↦ some (new_packer window) ];
    upgrading = false;
    running = false;
    rerun = [];
    executed = [];
  }

  -- `NewDcronWithOption`, where `new_packer` is NewRecentJobPacker.
  unfoldable pub new_dcron_with_option : List DcronOption → Node r
  unfolding with_dcron_options new_node_pool new_cron
  new_dcron_with_option opts = node_of (with_dcron_options new_dcron opts)

  -- `NewDcron`
  unfoldable pub new_dcron_with_cron : List CronOption → Node r
  unfolding new_node_pool new_cron
  new_dcron_with_cron cron_opts = node_of (record new_dcron { cron_options = cron_opts })

abbrev pub asks_capacity : List DcronOption → Bool
asks_capacity [] = false
asks_capacity (opt ∷ opts) =
    let rest = asks_capacity opts in
    elim opt [
      | with_dcron_logger _ ↦ rest
      | with_node_update_duration _ ↦ rest
      | with_hash_replicas _ ↦ rest
      | with_capacity_load ↦ true
      | cron_option_location _ ↦ rest
      | cron_option_seconds ↦ rest
      | cron_option_parser _ ↦ rest
      | cron_option_chain _ ↦ rest
      | with_recover_func _ ↦ rest
      | with_cluster_stable _ ↦ rest
    ]

capacity_set :
    (d : Setup) (opts : List DcronOption)
    → (with_dcron_options d opts).capacity_load ≡ (asks_capacity opts || d.capacity_load)
unfolding with_dcron_options
capacity_set d [] = refl
capacity_set d (with_dcron_logger _ ∷ opts) = capacity_set _ opts
capacity_set d (with_node_update_duration _ ∷ opts) = capacity_set _ opts
capacity_set d (with_hash_replicas _ ∷ opts) = capacity_set _ opts
capacity_set d (with_capacity_load ∷ opts) =
    ground (arith, capacity_set (record d { capacity_load = true }) opts)
capacity_set d (cron_option_location _ ∷ opts) = capacity_set _ opts
capacity_set d (cron_option_seconds ∷ opts) = capacity_set _ opts
capacity_set d (cron_option_parser _ ∷ opts) = capacity_set _ opts
capacity_set d (cron_option_chain _ ∷ opts) = capacity_set _ opts
capacity_set d (with_recover_func _ ∷ opts) = capacity_set _ opts
capacity_set d (with_cluster_stable _ ∷ opts) = capacity_set _ opts

module _ (r : RecentJobs) (new_packer : ℕ → r.State) (sum64 : Text → ℕ) where
  run_job-capacity :
      (now : ℕ × ℕ) (name : Text) (n : Node r)
      → n.capacity_load ≡ true
      → run_job r sum64 now name n ≡ ok (execute r sum64 name n)
  unfolding run_job
  run_job-capacity now name n on =
      ap
        (λ load.
          if load
          then ok (execute r sum64 name n)
          else (allow_this_node_run r sum64 now name n >>= λ (answer, n').
              ok (if answer then execute r sum64 name n' else n')))
        on

  runs-capacity :
      (now : ℕ × ℕ) (name : Text) (n : Node r)
      → n.capacity_load ≡ true
      → runs r sum64 now name n ≡ true
  runs-capacity now name n on =
      rw (runs, run_job-capacity now name n on)
        (ground (arith, length-append n.executed (name ∷ [])))

  -- A node that was made with the given options, at a time when its pool is the one given.
  abbrev pub built : List DcronOption × NodePool → Node r
  built (opts, pool) = record (new_dcron_with_option r new_packer opts) { pool = pool }

  -- Nodes that were made with the option WithCapacityLoad, among others, all run every activation
  -- of every job, whatever their pools are.
  pub runners-capacity :
      (now : ℕ × ℕ) (name : Text) (nodes : List (List DcronOption × NodePool))
      → All (λ (opts, pool). asks_capacity opts ≡ true) nodes
      → runners r sum64 now name (map built nodes) ≡ length nodes
  unfolding new_dcron_with_option
  runners-capacity now name [] h = refl
  runners-capacity now name ((opts, pool) ∷ nodes) (asks, more) = ground (
    arith,
    runs-capacity now name (built (opts, pool)) (ground (arith, capacity_set new_dcron opts, asks)),
    runners-capacity now name nodes more,
  )
