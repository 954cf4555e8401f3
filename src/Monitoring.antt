-- ===== src/Monitoring.antt =====
-- monitoring/stats.go, connection.go, process.go and monitor.go: the counters of a connection or a
-- worker, their states and last logs, and the monitor that keeps them.
pub mod Counters
pub mod Metrics
mod Tests
use Prim.Native.String.{String, ◌++◌}
use mathlib.Core.List.{◌++◌ as append}
use log_shipper.Base.{ℕ, Option, none, some, List, [], ◌∷◌}
use Counters.{Stats, new_stats}

-- The levels of logrus that the program logs at.
pub data Level : Type 0 where
  fatal error info : Level

pub record LogItem : Type 0 where
  pub level : Level
  pub message : String
  pub time : ℕ

-- connection/connection.go: `Details`.
pub record Details : Type 0 where
  pub host : String
  pub port : ℕ

-- The limiters that a connection shows are those of its target's rules, and stand there.
pub record Connection : Type 0 where
  pub details : Details
  pub provider : String
  pub name : String
  pub connection_type : String
  pub stats : Stats
  pub state : String
  pub last_log : Option LogItem

pub record Process : Type 0 where
  pub name : String
  pub process_type : String
  pub stats : Stats
  pub state : String
  pub last_log : Option LogItem

-- What was logged, newest first; `none` is a monitor with no logger.
pub record Monitor : Type 0 where
  pub connections : List Connection
  pub processes : List Process
  pub logger : Option (List (Level × String))

unfoldable pub new_connection : Details → String → String → String → Connection
new_connection details provider name connection_type = record {
  details = details;
  provider = provider;
  name = name;
  connection_type = connection_type;
  stats = new_stats;
  state = "";
  last_log = none;
}

unfoldable pub new_process : String → String → Process
new_process name process_type = record {
  name = name;
  process_type = process_type;
  stats = new_stats;
  state = "";
  last_log = none;
}

unfoldable pub new_monitor : Option (List (Level × String)) → Monitor
new_monitor logger = record { connections = []; processes = []; logger = logger }

unfoldable pub set_connection_state : String → Connection → Connection
set_connection_state state c = record c { state = state }

unfoldable pub set_process_state : String → Process → Process
set_process_state state p = record p { state = state }

unfoldable pub add_connection : Connection → Monitor → Monitor
add_connection c m = record m { connections = append m.connections (c ∷ []) }

unfoldable pub add_process : Process → Monitor → Monitor
add_process p m = record m { processes = append m.processes (p ∷ []) }

log_line : Level → String → Option (List (Level × String)) → Option (List (Level × String))
log_line level text none = none
log_line level text (some lines) = some ((level, text) ∷ lines)

unfoldable pub log : Level → String → Monitor → Monitor
unfolding log_line
log level text m = record m { logger = log_line level text m.logger }

-- `fmt.Sprintf("%s %s: %s", ...)`.
abbrev pub log_text : String → String → String → String
log_text name kind text = name ++ (" " ++ (kind ++ (": " ++ text)))

unfoldable pub log_for_process : Level → String → ℕ → Process → Monitor → Process × Monitor
log_for_process level text now p m = (
  record p { last_log = some (record { level = level; message = text; time = now }) },
  log level (log_text p.name p.process_type text) m,
)

unfoldable pub log_for_connection : Level → String → ℕ → Connection → Monitor → Connection × Monitor
log_for_connection level text now c m = (
  record c { last_log = some (record { level = level; message = text; time = now }) },
  log level (log_text c.name c.connection_type text) m,
)
