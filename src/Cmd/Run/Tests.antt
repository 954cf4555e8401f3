-- ===== src/Cmd/Run/Tests.antt =====
-- Runs of the command: two sources and two targets, and a provider that is not known.
use log_shipper.Base.{ℕ, ◌/◌, ◌≡◌, refl, true, none, some, [], ◌∷◌, str_eq, String, not}
use log_shipper.Base.Dict.{lookup, insert}
use log_shipper.Monitoring.{Details}
use log_shipper.Cmd.{
  ConfigSource, ConfigTarget, Readers, assemble_source, assemble_target, add_connection,
  start_connections, collect, configure_sources, configure_targets,
}
use log_shipper.Cmd.Loading.{Config, loaded, load_config, config_or_exit}
use log_shipper.Cmd.Run.{
  Setting, new_run_command, new_broker, add_sources, add_targets, start_processes, start, run,
}
use log_shipper.Cmd.Run.Launch.{run_lem}
use log_shipper.Broker.System.{launched}

abbrev readers : Readers
readers = record {
  to_bytes = λ s. 1024;
  parse_duration = λ s. 60_000_000_000;
  float = record {
    Real = ℕ;
    of_int64 = λ n. n;
    div = λ a b. a / b;
    floor = λ n. n;
    to_uint64 = λ n. n;
  };
  clock = λ n. (n, n);
}

abbrev source : String → ConfigSource
source provider = record {
  provider = provider;
  endpoint = "";
  targets = "out" ∷ "lost" ∷ [];
  settings = [];
}

abbrev target : String → ConfigTarget
target provider = record {
  provider = provider;
  endpoint = "";
  alert_channels = [];
  rate_limit = [];
  settings = [];
}

abbrev conf : String → Config
conf provider = record {
  sources = ("jobs", source "nomad") ∷ ("app", source "dummy") ∷ [];
  targets = ("out", target "stdout") ∷ ("lost", target provider) ∷ [];
  alerting = [];
}

abbrev details : Details
details = record { host = "127.0.0.1"; port = 4000 }

abbrev setting : String → Setting
setting provider = record {
  files = record {
    is_absent = λ path. not (str_eq path "./config.yaml");
    read_file = λ path. loaded "sources: ...";
    unmarshal = λ text c. loaded (conf provider);
  };
  start_source = λ name conn. some details;
  start_target = λ name conn. some details;
  readers = readers;
}

-- A provider that is not known, and a file that is not there.
unknown_test : run (setting "kafka") new_run_command ≡ none
unfolding run config_or_exit load_config start_processes new_broker add_sources add_targets
    start_connections collect configure_sources configure_targets assemble_source assemble_target
    lookup insert add_connection
unknown_test = refl

absent_test : run (setting "logzio") (record new_run_command { config = "x" }) ≡ none
unfolding run config_or_exit load_config
absent_test = refl

run_lem_example :
    run (setting "logzio") new_run_command
    ≡ some (record {
      broker = record {
        sources =
            ("jobs", assemble_source "jobs" (source "nomad") details)
            ∷ ("app", assemble_source "app" (source "dummy") details)
            ∷ [];
        targets =
            ("out", assemble_target readers "out" (target "stdout") details)
            ∷ ("lost", assemble_target readers "lost" (target "logzio") details)
            ∷ [];
        num_workers = 1;
      };
      serves_http = true;
    })
unfolding lookup load_config
run_lem_example =
    run_lem (setting "logzio") new_run_command (conf "logzio") refl (refl, (refl, tt))
      (refl, (refl, tt))

start_test :
    start (record {
      sources = ("app", assemble_source "app" (source "dummy") details) ∷ [];
      targets = [];
      num_workers = 3;
    })
    ≡ launched ("app" ∷ []) [] 3
unfolding start
start_test = refl
