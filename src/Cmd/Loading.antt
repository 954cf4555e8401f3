-- ===== src/Cmd/Loading.antt =====
-- cmd/run.go and config/config.go: how the command reads its configuration.
mod Tests
use Prim.Native.String.{◌++◌}
use log_shipper.Base.{String, Bool, Option, none, some, [], if◌then◌else◌}
use log_shipper.Base.Dict.{Dict}
use log_shipper.Cmd.{ConfigSource, ConfigTarget}

pub record AlertChannel : Type 0 where
  pub provider : String
  pub suppress : String
  pub settings : Dict String

pub record Config : Type 0 where
  pub sources : Dict ConfigSource
  pub targets : Dict ConfigTarget
  pub alerting : Dict AlertChannel

-- A value, or the text of an error.
pub data Loaded (A : Type 0) : Type 0 where
  loaded : A → Loaded A
  failed : String → Loaded A

-- Whether `os.Stat` says that there is no such file, what `ioutil.ReadFile` gives, and the YAML
-- library, which writes over a configuration; an error is its text.
pub record Files : Type 0 where
  pub is_absent : String → Bool
  pub read_file : String → Loaded String
  pub unmarshal : String → Config → Loaded Config

new_config : Config
new_config = record { sources = []; targets = []; alerting = [] }

-- The text that `LoadYAML` puts before that of the library.
explained : Loaded Config → Loaded Config
explained (loaded conf) = loaded conf
explained (failed text) = failed ("error while parsing config file: " ++ text)

load_yaml : Files → String → Config → Loaded Config
unfolding explained
load_yaml files text conf = explained (files.unmarshal text conf)

read_config_file : Files → String → Loaded String
read_config_file files path =
    if files.is_absent path
    then failed ("config file not found, looking in: " ++ path)
    else files.read_file path

parsed : Files → Loaded String → Loaded Config
unfolding load_yaml new_config
parsed files (failed text) = failed text
parsed files (loaded text) = load_yaml files text new_config

unfoldable pub load_config : Files → String → Loaded Config
unfolding parsed read_config_file
load_config files path = parsed files (read_config_file files path)

-- What the command goes on with: on an error it ends the program.
unfoldable pub config_or_exit : Loaded Config → Option Config
config_or_exit (loaded conf) = some conf
config_or_exit (failed text) = none
