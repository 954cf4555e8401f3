-- ===== src/Nomad/Config.antt =====
-- source/nomad/config.go: the settings of jobs, groups and tasks, from their metadata.
pub mod Files
pub mod Switches
mod Tests
use Prim.Native.String.{◌++◌}
use log_shipper.Base.{
  ◌>>=◌, ℕ, String, Bool, true, false, Option, none, some, List, [], ◌∷◌, if◌then◌else◌, str_eq,
}
use log_shipper.Base.Dict.{Dict, lookup, insert}
use log_shipper.Base.Lists.{get_or}
use log_shipper.Base.Split.{split}
use log_shipper.Nomad.{Task, TaskGroup, Job, Allocation}

pub record SourceConfig : Type 0 where
  pub source_type : String
  pub log_delimiter : String

pub record JobConfig : Type 0 where
  pub id : String
  pub enabled : Bool

-- A map that may be nil is an `Option`.
pub record GroupConfig : Type 0 where
  pub id : String
  pub enabled : Bool
  pub files : Option (Dict SourceConfig)

pub record TaskConfig : Type 0 where
  pub id : String
  pub enabled : Bool
  pub outputs : Option (Dict SourceConfig)
  pub watch_nomad_events : Bool

pub record AllocationConfig : Type 0 where
  pub job_config : JobConfig
  pub group_configs : Dict GroupConfig
  pub task_configs : Dict TaskConfig
  pub alloc : Allocation

abbrev pub text_or : String → Option String → String
text_or default none = default
text_or default (some value) = value

-- `if v, ok := meta[key]; ok && v == wanted { flag = new }`.
abbrev set_if : String → Bool → Option String → Bool → Bool
set_if wanted new none flag = flag
set_if wanted new (some v) flag = if str_eq v wanted then new else flag

enabled_in : Dict String → Bool
enabled_in meta =
    let value = lookup "log_shipper_enabled" meta in
    set_if "true" true value (set_if "false" false value true)

watches_in : Dict String → Bool
watches_in meta =
    let value = lookup "log_shipper_watch_events" meta in
    set_if "false" false value (set_if "true" true value true)

-- One round of the loop over the sources; `none` is the panic of `parts[0]` out of range. The
-- guard `len(parts) < 0` holds of no slice.
configure : List String → Dict SourceConfig → Option (Dict SourceConfig)
configure [] configs = none
configure (path ∷ settings) configs = some (
    insert path
      (record {
        source_type = get_or settings 0 "allocation-log-file";
        log_delimiter = get_or settings 1 "\n";
      })
      configs)

configure_all : List String → Dict SourceConfig → Option (Dict SourceConfig)
unfolding configure
configure_all [] configs = some configs
configure_all (s ∷ rest) configs = do
  configured ← configure (split s ":") configs
  configure_all rest configured

unfoldable pub source_configs : String → Option (Dict SourceConfig)
unfolding configure_all
source_configs value = configure_all (split value ",") []

-- The metadata may have no entry for the sources; then the map stays nil.
optional_configs : Option String → Option (Option (Dict SourceConfig))
unfolding source_configs
optional_configs none = some none
optional_configs (some value) = do configs ← source_configs value; some (some configs)

unfoldable pub meta_to_group_config : Dict String → Option GroupConfig
unfolding enabled_in optional_configs
meta_to_group_config meta = do
  files ← optional_configs (lookup "log_shipper_files" meta)
  some (record {
    id = text_or "" (lookup "log_shipper_id" meta);
    enabled = enabled_in meta;
    files = files;
  })

unfoldable pub meta_to_task_config : Dict String → Option TaskConfig
unfolding enabled_in watches_in optional_configs
meta_to_task_config meta = do
  outputs ← optional_configs (lookup "log_shipper_outputs" meta)
  some (record {
    id = text_or "" (lookup "log_shipper_id" meta);
    enabled = enabled_in meta;
    outputs = outputs;
    watch_nomad_events = watches_in meta;
  })

unfoldable pub meta_to_job_config : Dict String → JobConfig
unfolding enabled_in
meta_to_job_config meta = record {
  id = text_or "" (lookup "log_shipper_id" meta);
  enabled = enabled_in meta;
}

add_tasks : String → List Task → Dict TaskConfig → Option (Dict TaskConfig)
unfolding meta_to_task_config
add_tasks prefix [] configs = some configs
add_tasks prefix (task ∷ tasks) configs = do
  config ← meta_to_task_config task.meta
  add_tasks prefix tasks (insert (prefix ++ "/" ++ task.name) config configs)

-- A nil name is dereferenced, which panics: `none`.
add_groups :
    Option String
    → List TaskGroup
    → Dict GroupConfig × Dict TaskConfig
    → Option (Dict GroupConfig × Dict TaskConfig)
unfolding meta_to_group_config add_tasks
add_groups job_name [] configs = some configs
add_groups job_name (group ∷ groups) configs = do
  job ← job_name
  name ← group.name
  config ← meta_to_group_config group.meta
  task_configs ← add_tasks (job ++ "/" ++ name) group.tasks configs.1
  add_groups job_name groups (insert (job ++ "/" ++ name) config configs.0, task_configs)

unfoldable pub new_from_allocation : Allocation → Option AllocationConfig
unfolding add_groups meta_to_job_config
new_from_allocation alloc = do
  job ← alloc.job
  configs ← add_groups job.name job.task_groups ([], [])
  some (record {
    job_config = meta_to_job_config job.meta;
    group_configs = configs.0;
    task_configs = configs.1;
    alloc = alloc;
  })
