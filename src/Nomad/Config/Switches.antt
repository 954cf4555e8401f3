-- ===== src/Nomad/Config/Switches.antt =====
-- When jobs, groups and tasks are switched off, and that settings are read from any metadata.
use Prim.Native.String.{◌++◌}
use log_shipper.Base.{
  ◌≡◌, ◌↔◌, refl, sym, String, Bool, true, false, Option, none, some, List, [], ◌∷◌, arith, str_eq,
  eq_iff, bind_total, if◌then◌else◌,
}
use log_shipper.Base.Dict.{Dict, lookup, insert}
use log_shipper.Nomad.{Task, TaskGroup, Job, Allocation}
use log_shipper.Nomad.Config.{
  SourceConfig, GroupConfig, TaskConfig, AllocationConfig, set_if, text_or, enabled_in, watches_in,
  optional_configs, meta_to_group_config, meta_to_task_config, meta_to_job_config, add_tasks,
  add_groups, new_from_allocation,
}
use log_shipper.Nomad.Config.Files.{source_configs_total}

abbrev pub Switch : Bool → String → Dict String → Type 0
Switch flag key meta = (flag ≡ false) ↔ (lookup key meta ≡ some "false")

not_both : (v : String) → str_eq v "true" ≡ true → str_eq v "false" ≡ false
not_both v e = rw ((eq_iff v "true").0 e) refl

is_text_iff : (v w : String) → (some v ≡ some w) ↔ (str_eq v w ≡ true)
is_text_iff v w = ground (arith, eq_iff v w)

switch_off :
    (value : Option String)
    → (set_if "true" true value (set_if "false" false value true) ≡ false) ↔ (value ≡ some "false")
switch_off none = ground arith
switch_off (some v) = go (str_eq v "true") (str_eq v "false") (not_both v) (is_text_iff v "false")
  where
    go :
        (says_true says_false : Bool)
        → (says_true ≡ true → says_false ≡ false)
        → (some v ≡ some "false") ↔ (says_false ≡ true)
        → ((if says_true then true else if says_false then false else true) ≡ false)
          ↔ (some v ≡ some "false")
    go true says_false h k =
        (λ e. absurd (ground (arith, e)), λ e. absurd (ground (arith, h refl, k.0 e)))
    go false true h k = (λ e. k.1 refl, λ e. refl)
    go false false h k = (λ e. absurd (ground (arith, e)), λ e. sym (k.0 e))

switch_off_reversed :
    (value : Option String)
    → (set_if "false" false value (set_if "true" true value true) ≡ false) ↔ (value ≡ some "false")
switch_off_reversed none = ground arith
switch_off_reversed (some v) = go (str_eq v "true") (str_eq v "false") (is_text_iff v "false")
  where
    go :
        (says_true says_false : Bool)
        → (some v ≡ some "false") ↔ (says_false ≡ true)
        → ((if says_false then false else if says_true then true else true) ≡ false)
          ↔ (some v ≡ some "false")
    go says_true true k = (λ e. k.1 refl, λ e. refl)
    go true false k = (λ e. absurd (ground (arith, e)), λ e. sym (k.0 e))
    go false false k = (λ e. absurd (ground (arith, e)), λ e. sym (k.0 e))

optional_configs_total :
    (value : Option String)
    → (configs : Option (Dict SourceConfig)) × (optional_configs value ≡ some configs)
unfolding optional_configs
optional_configs_total none = (none, refl)
optional_configs_total (some value) =
    let read = source_configs_total value in (some read.0, rw (read.1) refl)

-- A group and a task have a configuration whatever their metadata says; they and a job are switched
-- off exactly when it says `log_shipper_enabled` = `false`, and a task does without events exactly
-- when it says `log_shipper_watch_events` = `false`.
pub switched_off_iff :
    (meta : Dict String)
    → ((group : GroupConfig) × (meta_to_group_config meta ≡ some group)
        × Switch group.enabled "log_shipper_enabled" meta)
      × ((task : TaskConfig) × (meta_to_task_config meta ≡ some task)
          × Switch task.enabled "log_shipper_enabled" meta
          × Switch task.watch_nomad_events "log_shipper_watch_events" meta)
      × Switch (meta_to_job_config meta).enabled "log_shipper_enabled" meta
unfolding meta_to_group_config meta_to_task_config meta_to_job_config enabled_in watches_in
switched_off_iff meta =
    let files = optional_configs_total (lookup "log_shipper_files" meta) in
    let outputs = optional_configs_total (lookup "log_shipper_outputs" meta) in
    let enabled = switch_off (lookup "log_shipper_enabled" meta) in
    (
      (
        record {
          id = text_or "" (lookup "log_shipper_id" meta);
          enabled = enabled_in meta;
          files = files.0;
        },
        rw (files.1) refl,
        enabled,
      ),
      (
        record {
          id = text_or "" (lookup "log_shipper_id" meta);
          enabled = enabled_in meta;
          outputs = outputs.0;
          watch_nomad_events = watches_in meta;
        },
        rw (outputs.1) refl,
        enabled,
        switch_off_reversed (lookup "log_shipper_watch_events" meta),
      ),
      enabled,
    )

add_tasks_total :
    (prefix : String) (tasks : List Task) (configs : Dict TaskConfig)
    → (read : Dict TaskConfig) × (add_tasks prefix tasks configs ≡ some read)
unfolding add_tasks
add_tasks_total prefix [] configs = (configs, refl)
add_tasks_total prefix (task ∷ tasks) configs =
    let config = (switched_off_iff task.meta).1 in
    bind_total (meta_to_task_config task.meta) _ (config.0, config.1)
      (λ c. add_tasks_total prefix tasks (insert (prefix ++ "/" ++ task.name) c configs))

-- All names of groups are there.
abbrev pub Named : List TaskGroup → Type 0
Named [] = Unit
Named (group ∷ groups) = ((name : String) × (group.name ≡ some name)) × Named groups

add_groups_total :
    (job : String) (groups : List TaskGroup) (configs : Dict GroupConfig × Dict TaskConfig)
    → Named groups
    → (read : Dict GroupConfig × Dict TaskConfig) × (add_groups (some job) groups configs
        ≡ some read)
unfolding add_groups
add_groups_total job [] configs named = (configs, refl)
add_groups_total job (group ∷ groups) configs named =
    let config = (switched_off_iff group.meta).0 in
    bind_total group.name _ named.0 (λ name.
      bind_total (meta_to_group_config group.meta) _ (config.0, config.1)
        (λ c.
          bind_total (add_tasks (job ++ "/" ++ name) group.tasks configs.1) _
            (add_tasks_total (job ++ "/" ++ name) group.tasks configs.1)
            (λ task_configs.
              add_groups_total job groups (insert (job ++ "/" ++ name) c configs.0, task_configs)
                named.1)))

-- An allocation whose job and groups have names gets its configuration, whatever the metadata says:
-- nothing panics, and the configuration keeps the allocation.
new_from_allocation_total :
    (alloc : Allocation) (job : Job) (name : String)
    → alloc.job ≡ some job
    → job.name ≡ some name
    → Named job.task_groups
    → (config : AllocationConfig) × (new_from_allocation alloc ≡ some config)
      × (config.alloc ≡ alloc)
      × (config.job_config ≡ meta_to_job_config job.meta)
unfolding new_from_allocation
new_from_allocation_total alloc job name has_job has_name named =
    let configs = add_groups_total name job.task_groups ([], []) named in
    (
      record {
        job_config = meta_to_job_config job.meta;
        group_configs = configs.0.0;
        task_configs = configs.0.1;
        alloc = alloc;
      },
      rw (has_job, has_name, configs.1) refl,
      refl,
      refl,
    )
