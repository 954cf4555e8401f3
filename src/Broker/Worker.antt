-- ===== src/Broker/Worker.antt =====
-- broker/worker.go: `Worker`, one event of its loop at a time.
pub mod Sends
pub mod Loop
pub mod Group
mod Tests
use log_shipper.Base.{
  ℕ, String, Bool, true, false, Option, none, some, List, [], ◌∷◌, ◌++◌, if◌then◌else◌,
}
use log_shipper.Base.Lists.{length}
use log_shipper.Protocol.Input.{Fault}
use log_shipper.Message.{BrokerMessage, protobuf_to_broker}
use log_shipper.Monitoring.{Process, Monitor, Level, error, set_process_state, log_for_process}
use log_shipper.Monitoring.Counters.{
  Stats, increment_bytes, increment_messages_inbound, increment_messages_outbound,
  add_in_flight_message, remove_in_flight_message,
}
use log_shipper.Broker.Manager.{Manager, Panic, nil_dereference, finds_target}
use log_shipper.Broker.Target.{Library}

-- What a worker sees, and the messages that it handed to targets.
pub record Worker : Type 0 where
  pub process : Process
  pub monitor : Option Monitor
  pub manager : Manager
  pub sends : List (String × List ℕ)

pub data Event : Type 0 where
  received : List ℕ → Event
  stopping : Event

pub data Turn : Type 0 where
  continues : Worker → Turn
  returns : Worker → Turn
  panics : Panic → Turn

abbrev enter_state : String → Worker → Worker
enter_state state w = record w { process = set_process_state state w.process }

abbrev update_stats : (Stats → Stats) → Worker → Worker
update_stats f w = record w { process = record (w.process) { stats = f w.process.stats } }

-- `Monitor.LogForProcess` on a monitor that may be nil: there it reads a field of a nil pointer.
report_to : String → ℕ → Worker → Option Monitor → Turn
report_to text now w none = panics nil_dereference
report_to text now w (some m) =
    let (p, m') = log_for_process error text now w.process m in
    continues (record w { process = p; monitor = some m' })

-- `SendToTarget`: the error for a target that the broker does not have is dropped.
send_to_target : List ℕ → String → Worker → Worker
send_to_target raw target w =
    if finds_target target w.manager
    then update_stats (increment_messages_outbound 1)
        (record w { sends = w.sends ++ (target, raw) ∷ [] })
    else w

send_to_targets : List ℕ → List String → Worker → Worker
unfolding send_to_target
send_to_targets raw [] w = w
send_to_targets raw (target ∷ targets) w = send_to_targets raw targets (send_to_target raw target w)

distribute : Library → ℕ → List ℕ → Worker → BrokerMessage × Option Fault → Turn
unfolding report_to send_to_targets
distribute lib now raw w (l, some fault) = report_to (lib.describe fault) now w w.monitor
distribute lib now raw w (l, none) =
    continues (update_stats remove_in_flight_message (send_to_targets raw l.targets w))

begin_work : List ℕ → Worker → Worker
begin_work raw w =
    update_stats
      (λ x. add_in_flight_message (increment_messages_inbound 1 (increment_bytes (length raw) x)))
      (enter_state "processing" w)

-- One round of the loop of `Start`.
unfoldable pub turn : Library → ℕ → Event → Worker → Turn
unfolding distribute begin_work
turn lib now (received raw) w =
    distribute lib now raw (begin_work raw (enter_state "waiting" w))
      (protobuf_to_broker lib.codecs raw)
turn lib now stopping w = returns (enter_state "finished" (enter_state "waiting" w))
