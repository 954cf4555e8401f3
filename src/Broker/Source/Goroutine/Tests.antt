-- ===== src/Broker/Source/Goroutine/Tests.antt =====
-- The life of a source's goroutine: two messages and a stop, and a dial that fails.
use log_shipper.Base.{ℕ, ◌≡◌, refl, arith, none, some, List, [], ◌∷◌, ◌++◌}
use log_shipper.Protocol.Frame.{put_uint32}
use log_shipper.Protocol.{
  Writer, write, write_protobuf, write_message, message_to_protobuf, write_new_message, send_hello,
}
use log_shipper.Protocol.Stream.{open_writer}
use log_shipper.Protocol.Sample.{words}
use log_shipper.Message.{protobuf_to_source, to_protobuf, source_to_broker}
use log_shipper.Monitoring.{new_connection, new_monitor, set_connection_state}
use log_shipper.Broker.Sample.{lib}
use log_shipper.Broker.Manager.{new_manager}
use log_shipper.Broker.Source.{Source, stopping}
use log_shipper.Broker.Source.Goroutine.{left, refused, connected, starting, run, release}
use log_shipper.Broker.Source.Goroutine.Lines.{Line, Done, arrivals_of, run-Done}

abbrev line : ℕ → Line
line now = record {
  now = now;
  payload = 5 ∷ [];
  says = record { id = ""; message = []; meta = []; attributes = none };
  raw = 2 ∷ [];
}

abbrev lines : List Line
lines = line 3 ∷ line 4 ∷ []

abbrev source : Source
source =
    starting "app" "dummy" (record { host = "127.0.0.1"; port = 1 }) ("logs" ∷ "spare" ∷ [])
      (some (new_monitor none)) (record new_manager { source_wait = 1 })

abbrev hello_sent : Writer
hello_sent = open_writer (1 ∷ 0 ∷ 0 ∷ 0 ∷ 1 ∷ [])

run-Done_example :
    (s' : Source) × (run lib 0
        (connected (open_writer []))
        (arrivals_of lines ++ (9, stopping) ∷ [])
        source
      ≡ left s')
    × Done lib lines (record source { writer = hello_sent }) s'
unfolding starting new_manager protobuf_to_source to_protobuf source_to_broker send_hello
    write_new_message write_message message_to_protobuf write_protobuf write put_uint32 words
run-Done_example =
    run-Done lib 9 lines 0 (open_writer []) hello_sent source refl
      ((refl, refl), ((refl, refl), tt)) (omega arith)

refused_test :
    run lib 0 (refused "connection refused") [] (
      starting "app" "dummy"
        (record { host = "127.0.0.1"; port = 1 })
        []
        none
        (record new_manager { source_wait = 1 }))
    ≡ left
        (record (starting "app" "dummy"
          (record { host = "127.0.0.1"; port = 1 })
          []
          none
          new_manager) {
            connection =
                set_connection_state "dead"
                  (new_connection (record { host = "127.0.0.1"; port = 1 }) "dummy" "app" "source");
          })
unfolding run starting release new_manager set_connection_state
refused_test = refl
