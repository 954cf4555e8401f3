-- ===== src/Broker/Source/Tests.antt =====
-- A source's loop at a run with one message and a stop.
use log_shipper.Base.{ℕ, ◌≡◌, refl, List, none, [], ◌∷◌}
use log_shipper.Protocol.{command_source_message}
use log_shipper.Protocol.Input.{eof}
use log_shipper.Message.{protobuf_to_source, to_protobuf, source_to_broker}
use log_shipper.Monitoring.{new_connection}
use log_shipper.Broker.Sample.{lib}
use log_shipper.Broker.Manager.{new_manager, add_message}
use log_shipper.Broker.Source.{Source, Event, incoming, faulty, turn, handle}

abbrev source : Source
source = record {
  name = "src";
  targets = "logs" ∷ "spare" ∷ [];
  connection = new_connection (record { host = "127.0.0.1"; port = 1 }) "dummy" "src" "source";
  monitor = none;
  writer = record { written = []; outcomes = [] };
  manager = new_manager;
  outbound = [];
}

abbrev run : List (ℕ × Event)
run =
    (0, incoming (record { command = command_source_message; payload = 5 ∷ [] }))
    ∷ (1, faulty eof)
    ∷ []

handle_test : (handle lib run source).manager.in_flight ≡ 2
unfolding handle turn protobuf_to_source to_protobuf source_to_broker add_message new_manager
handle_test = refl
