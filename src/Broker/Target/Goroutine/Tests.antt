-- ===== src/Broker/Target/Goroutine/Tests.antt =====
-- The life of a target's goroutine: two messages and a stop, and dials that fail.
use log_shipper.Base.{ℕ, ◌≡◌, refl, arith, none, some, List, [], ◌∷◌, ◌++◌}
use log_shipper.Protocol.Frame.{put_uint32, uint32}
use log_shipper.Protocol.Input.{chunk, read, conn_read, Reader}
use log_shipper.Protocol.{
  Writer, write, write_protobuf, write_message, message_to_protobuf, write_new_message, send_hello,
  wait_for_ok, wait_for, read_message,
}
use log_shipper.Protocol.Stream.{write_messages, holding, open_writer}
use log_shipper.Protocol.Sample.{words}
use log_shipper.Message.{protobuf_to_broker, to_protobuf}
use log_shipper.Monitoring.{new_connection, new_monitor, set_connection_state}
use log_shipper.Monitoring.Counters.{new_stats}
use log_shipper.Broker.Sample.{from_source, lib}
use log_shipper.Broker.Manager.{nil_dereference, new_manager}
use log_shipper.Broker.Target.{World}
use log_shipper.Broker.Target.Goroutine.{
  stopping, left, crashed, refused, connected, starting, handle,
}
use log_shipper.Broker.Target.Goroutine.Messages.{Item, Done, arrivals_of, handle-Done}

abbrev item : ℕ → Item
item now = record { now = now; raw = 1 ∷ []; says = from_source; out = 7 ∷ 8 ∷ [] }

abbrev items : List Item
items = item 5 ∷ item 6 ∷ []

abbrev ok_frame : List ℕ
ok_frame = 1 ∷ 0 ∷ 0 ∷ 0 ∷ 2 ∷ []

abbrev answers : Reader
answers = holding [] (chunk ok_frame ∷ chunk ok_frame ∷ [])

abbrev hello_sent : Writer
hello_sent = open_writer (1 ∷ 0 ∷ 0 ∷ 0 ∷ 1 ∷ [])

abbrev world : World
world =
    starting "logs" "stdout" (record { host = "127.0.0.1"; port = 1 }) [] (some (new_monitor none))
      (record new_manager { in_flight = 2; target_wait = 1 })

handle-Done_example :
    (w' : World) × (handle lib 0
        (connected (open_writer []) answers)
        (arrivals_of items ++ (9, stopping) ∷ [])
        world
      ≡ left w')
    × Done lib items (record world { writer = hello_sent; reader = answers }) w'
unfolding starting new_manager new_connection new_stats set_connection_state protobuf_to_broker
    to_protobuf send_hello write_new_message write_messages write_message message_to_protobuf
    write_protobuf write put_uint32 words wait_for_ok wait_for read_message read conn_read uint32
handle-Done_example =
    handle-Done lib 9 items 0 (open_writer []) hello_sent answers world refl refl
      ((refl, refl), ((refl, refl), tt)) refl (refl, (refl, tt)) (omega arith) (omega arith)
      (omega arith)

-- A dial that fails ends the goroutine if there is a monitor, and the program if there is none.
refused_test :
    handle lib 0
      (refused "connection refused")
      []
      (starting "logs" "stdout" (record { host = "127.0.0.1"; port = 1 }) [] none new_manager)
    ≡ crashed nil_dereference
unfolding handle starting
refused_test = refl
