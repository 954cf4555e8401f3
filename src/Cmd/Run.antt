-- ===== src/Cmd/Run.antt =====
-- cmd/run.go: the command, from the configuration to the running broker; broker/broker.go: the broker
-- and its `Start`.
pub mod Loops
pub mod Assembled
pub mod Launch
mod Tests
use log_shipper.Base.{
  ℕ, String, Bool, true, false, ◌||◌, Option, none, some, List, [], ◌∷◌, map, ◌>>=◌, if◌then◌else◌,
  str_eq,
}
use log_shipper.Base.Dict.{Dict, insert}
use log_shipper.Monitoring.{Details}
use log_shipper.Broker.System.{System, launched}
use log_shipper.Cmd.{
  ConfigSource, ConfigTarget, BrokerSource, BrokerTarget, Readers, add_connection,
  start_connections, configure_sources, configure_targets,
}
use log_shipper.Cmd.Loading.{Config, Files, load_config, config_or_exit}

pub record RunCommand : Type 0 where
  pub config : String
  pub workers : ℕ
  pub web : Bool
  pub ui : Bool
  pub port : ℕ
  pub consul : String
  pub consul_service_name : String

abbrev pub new_run_command : RunCommand
new_run_command = record {
  config = "./config.yaml";
  workers = 1;
  web = true;
  ui = false;
  port = 80;
  consul = "127.0.0.1:8500";
  consul_service_name = "log-shipper";
}

-- The sources and targets that the command knows, with the settings that they are given.
pub data SourceConnection : Type 0 where
  dummy : SourceConnection
  nomad : Dict String → String → SourceConnection

pub data TargetConnection : Type 0 where
  blackhole stdout : TargetConnection
  logzio : Dict String → TargetConnection

-- The files, and what the `Start` of the connection of a name answers; `none` is an error.
pub record Setting : Type 1 where
  pub files : Files
  pub start_source : String → SourceConnection → Option Details
  pub start_target : String → TargetConnection → Option Details
  pub readers : Readers

abbrev pub source_connection : String → ConfigSource → Option SourceConnection
source_connection consul_addr c =
    if str_eq c.provider "dummy"
    then some dummy
    else if str_eq c.provider "nomad"
    then some (nomad c.settings consul_addr)
    else none

abbrev pub target_connection : ConfigTarget → Option TargetConnection
target_connection c =
    if str_eq c.provider "blackhole"
    then some blackhole
    else if str_eq c.provider "stdout"
    then some stdout
    else if str_eq c.provider "logzio"
    then some (logzio c.settings)
    else none

-- The loops of `Run` over sources and targets: a provider that is not known is passed over.
module _ {C N : Type 0} (connection : C → Option N) (start : String → N → Option Details) where
  pub add_known : String → Option N → Dict (Option Details) → Dict (Option Details)
  add_known name none connections = connections
  add_known name (some conn) connections = add_connection name (start name conn) connections

  pub add_connections : Dict C → Dict (Option Details) → Dict (Option Details)
  unfolding add_known
  add_connections [] connections = connections
  add_connections ((name, c) ∷ rest) connections =
      add_connections rest (add_known name (connection c) connections)

pub record Broker : Type 0 where
  pub sources : Dict BrokerSource
  pub targets : Dict BrokerTarget
  pub num_workers : ℕ

unfoldable pub new_broker : ℕ → Broker
new_broker workers = record { sources = []; targets = []; num_workers = workers }

abbrev add_source : String → BrokerSource → Broker → Broker
add_source name source b = record b { sources = insert name source b.sources }

abbrev add_target : String → BrokerTarget → Broker → Broker
add_target name target b = record b { targets = insert name target b.targets }

unfoldable pub add_sources : Dict BrokerSource → Broker → Broker
add_sources [] b = b
add_sources ((name, source) ∷ sources) b = add_sources sources (add_source name source b)

unfoldable pub add_targets : Dict BrokerTarget → Broker → Broker
add_targets [] b = b
add_targets ((name, target) ∷ targets) b = add_targets targets (add_target name target b)

names : {V : Type 0} → Dict V → List String
names dict = map (λ entry. entry.0) dict

-- `Broker.Start`, up to its first wait.
unfoldable pub start : Broker → System
unfolding names
start b = launched (names b.sources) (names b.targets) b.num_workers

-- A command that was started: its broker, and whether it serves HTTP.
pub record Running : Type 0 where
  pub broker : Broker
  pub serves_http : Bool

-- `startProcesses` up to the start of the broker; `none` is an error.
unfoldable pub start_processes :
    Readers → Config → Dict (Option Details) → Dict (Option Details) → Broker → Option Broker
start_processes readers conf source_manager target_manager log_broker = do
  source_connections ← start_connections source_manager
  target_connections ← start_connections target_manager
  broker_sources ← configure_sources conf.sources source_connections
  broker_targets ← configure_targets readers conf.targets target_connections
  some (add_targets broker_targets (add_sources broker_sources log_broker))

-- `none` is `log.Fatalf`, which ends the program.
unfoldable pub run : Setting → RunCommand → Option Running
unfolding add_connections
run setting c = do
  conf ← config_or_exit (load_config setting.files c.config)
  broker ←
      start_processes setting.readers conf
        (add_connections (source_connection c.consul) setting.start_source conf.sources [])
        (add_connections target_connection setting.start_target conf.targets [])
        (new_broker c.workers)
  some (record { broker = broker; serves_http = c.web || c.ui })
