-- ===== src/Nomad/Config/Tests.antt =====
-- The theorems on the settings at concrete metadata.
use log_shipper.Base.{◌≡◌, refl, String, some, [], ◌∷◌}
use log_shipper.Base.Dict.{Dict, lookup, insert}
use log_shipper.Base.Split.{split, join}
use log_shipper.Nomad.Config.{
  SourceConfig, GroupConfig, TaskConfig, source_configs, meta_to_group_config, meta_to_task_config,
  meta_to_job_config,
}
use log_shipper.Nomad.Config.Files.{Entry, print, last_for, source_configs-print}
use log_shipper.Nomad.Config.Switches.{Switch, switched_off_iff}

abbrev app_log : Entry
app_log = ("app", record { source_type = "file"; log_delimiter = ";" })

abbrev err_log : Entry
err_log = ("err", record { source_type = "pipe"; log_delimiter = "|" })

print_test : print (app_log ∷ err_log ∷ []) ≡ "app:file:;,err:pipe:|"
unfolding join
print_test = refl

defaults_test :
    source_configs "app,err:pipe"
    ≡ some (
        ("app", record { source_type = "allocation-log-file"; log_delimiter = "\n" })
        ∷ ("err", record { source_type = "pipe"; log_delimiter = "\n" })
        ∷ [])
unfolding source_configs split insert
defaults_test = refl

source_configs-print_example :
    (configs : Dict SourceConfig) × (source_configs (print (app_log ∷ err_log ∷ [])) ≡ some configs)
    × ((path : String) → lookup path configs ≡ last_for path (app_log ∷ err_log ∷ []))
source_configs-print_example = source_configs-print app_log (err_log ∷ []) (
  (
    ((refl, (refl, (refl, tt))), ((refl, (refl, (refl, (refl, tt)))), ((refl, tt), tt))),
    ((refl, (refl, (refl, tt))), ((refl, (refl, (refl, (refl, tt)))), ((refl, tt), tt))),
  ),
  (
    (
      ((refl, (refl, (refl, tt))), ((refl, (refl, (refl, (refl, tt)))), ((refl, tt), tt))),
      ((refl, (refl, (refl, tt))), ((refl, (refl, (refl, (refl, tt)))), ((refl, tt), tt))),
    ),
    tt,
  ),
)

abbrev off : Dict String
off = ("log_shipper_enabled", "false") ∷ ("log_shipper_files", "app") ∷ []

switched_off_iff_example :
    ((group : GroupConfig) × (meta_to_group_config off ≡ some group)
      × Switch group.enabled "log_shipper_enabled" off)
    × ((task : TaskConfig) × (meta_to_task_config off ≡ some task)
        × Switch task.enabled "log_shipper_enabled" off
        × Switch task.watch_nomad_events "log_shipper_watch_events" off)
    × Switch (meta_to_job_config off).enabled "log_shipper_enabled" off
switched_off_iff_example = switched_off_iff off
