-- ===== src/Broker/Source.antt =====
-- broker/connector.go: `SourceConnector`, one event of its loop at a time.
pub mod Counts
pub mod Moves
pub mod Goroutine
mod Tests
use log_shipper.Base.{
  ℕ, ◌+◌, String, Bool, Option, none, some, List, [], ◌∷◌, ◌++◌, if◌then◌else◌, str_eq,
}
use log_shipper.Base.Lists.{length}
use log_shipper.Protocol.Input.{Fault, eof, io, malformed}
use log_shipper.Protocol.{Message, Writer, send_ok, command_source_message}
use log_shipper.Message.{SourceMessage, protobuf_to_source, source_to_broker, to_protobuf}
use log_shipper.Monitoring.{
  Connection, Monitor, Level, fatal, set_connection_state, log_for_connection,
}
use log_shipper.Monitoring.Counters.{
  Stats, increment_bytes, increment_messages_inbound, increment_messages_outbound,
  add_in_flight_message, remove_in_flight_message,
}
use log_shipper.Broker.Manager.{Manager, add_message}
use log_shipper.Broker.Target.{Library}

-- What the connector's goroutine sees, and the messages that it put on the outbound channel.
pub record Source : Type 0 where
  pub name : String
  pub targets : List String
  pub connection : Connection
  pub monitor : Option Monitor
  pub writer : Writer
  pub manager : Manager
  pub outbound : List (List ℕ)

-- What the loop waits for.
pub data Event : Type 0 where
  incoming : Message → Event
  faulty : Fault → Event
  stopping : Event

pub data Turn : Type 0 where
  continues : Source → Turn
  returns : Source → Turn

abbrev enter_state : String → Source → Source
enter_state state s = record s { connection = set_connection_state state s.connection }

abbrev update_stats : (Stats → Stats) → Source → Source
update_stats f s = record s { connection = record (s.connection) { stats = f s.connection.stats } }

report_to : String → ℕ → Source → Option Monitor → Source
report_to text now s none = s
report_to text now s (some m) =
    let (c, m') = log_for_connection fatal text now s.connection m in
    record s { connection = c; monitor = some m' }

-- The end of the goroutine on an error.
give_up : String → ℕ → Source → Turn
unfolding report_to
give_up text now s = let s' = enter_state "dead" s in returns (report_to text now s' s'.monitor)

-- The answer, the count for each target, and only then the message on the channel.
publish : Library → ℕ → Source → Option (List ℕ) → Turn
unfolding give_up
publish lib now s none = give_up lib.describe_marshal now s
publish lib now s (some raw) = continues (
    update_stats (λ x. remove_in_flight_message (increment_messages_outbound 1 x))
      (record s {
        writer = send_ok lib.wire s.writer;
        manager = add_message (length s.targets) s.manager;
        outbound = s.outbound ++ raw ∷ [];
      }))

wrap : Library → ℕ → Source → SourceMessage × Option Fault → Turn
unfolding publish give_up
wrap lib now s (m, some fault) = give_up (lib.describe fault) now s
wrap lib now s (m, none) =
    publish lib now s (to_protobuf lib.codecs.of_broker (source_to_broker s.name s.targets m))

begin_message : List ℕ → Source → Source
begin_message payload s =
    update_stats
      (λ x.
        add_in_flight_message (increment_messages_inbound 1 (increment_bytes (length payload) x)))
      (enter_state "processing" s)

take_message : Library → ℕ → Message → Source → Turn
unfolding wrap begin_message
take_message lib now m s =
    wrap lib now (begin_message m.payload s) (protobuf_to_source lib.codecs m.payload)

-- `err == io.EOF` is told apart from the other errors.
take_fault : Library → ℕ → Fault → Source → Turn
unfolding give_up
take_fault lib now eof s = returns (enter_state "finished" s)
take_fault lib now (io n) s = give_up (lib.describe (io n)) now s
take_fault lib now (malformed n) s = give_up (lib.describe (malformed n)) now s

-- One round of the loop of `Handle`.
unfoldable pub turn : Library → ℕ → Event → Source → Turn
unfolding take_message take_fault
turn lib now (incoming m) s =
    if str_eq m.command command_source_message
    then take_message lib now m (enter_state "waiting" s)
    else continues (enter_state "waiting" s)
turn lib now (faulty fault) s = take_fault lib now fault (enter_state "waiting" s)
turn lib now stopping s = returns (enter_state "finished" (enter_state "waiting" s))

after_turn : (Source → Source) → Turn → Source
after_turn next (continues s) = next s
after_turn next (returns s) = s

-- The loop over the events that come, up to the one that ends it.
unfoldable pub handle : Library → List (ℕ × Event) → Source → Source
unfolding after_turn
handle lib [] s = s
handle lib ((now, e) ∷ es) s = after_turn (handle lib es) (turn lib now e s)
