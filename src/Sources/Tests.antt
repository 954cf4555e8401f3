-- ===== src/Sources/Tests.antt =====
-- The servers of sources at one message, and at a connection that is gone.
use log_shipper.Base.{◌≡◌, refl, arith, none, some, [], ◌∷◌}
use log_shipper.Protocol.Frame.{put_uint32, uint32}
use log_shipper.Protocol.Input.{chunk, io, read, conn_read}
use log_shipper.Protocol.{
  write, write_protobuf, write_message, message_to_protobuf, write_new_message, wait_for_hello,
  wait_for_ok, wait_for, read_message,
}
use log_shipper.Protocol.Stream.{holding, open_writer}
use log_shipper.Protocol.Channel.{delivered, read_to_channel}
use log_shipper.Protocol.Sample.{words, words-RoundTrips}
use log_shipper.Message.{SourceMessage, protobuf_to_source, to_protobuf, source_to_broker}
use log_shipper.Monitoring.{new_connection}
use log_shipper.Broker.Sample.{lib}
use log_shipper.Broker.Manager.{new_manager, add_message}
use log_shipper.Broker.Source.{Source, incoming, continues, turn}
use log_shipper.Sources.{
  Conn, ships, panicked, ended, ship, ship_all, source_message, dummy_round, dummy_rounds,
  accept_dummy, accept_nomad,
}
use log_shipper.Sources.Exchange.{ship-acknowledged}

abbrev log : SourceMessage
log = record { id = ""; message = []; meta = []; attributes = none }

abbrev source : Source
source = record {
  name = "src";
  targets = "logs" ∷ [];
  connection = new_connection (record { host = "127.0.0.1"; port = 1 }) "dummy" "src" "source";
  monitor = none;
  writer = open_writer [];
  manager = new_manager;
  outbound = [];
}

ship-acknowledged_example :
    (conn : Conn) × (t : Source) × (read_to_channel words 2
        (holding [] (chunk conn.writer.written ∷ []))
      ≡ some (delivered (source_message []) ∷ []))
    × (turn lib 3 (incoming (source_message [])) source ≡ continues t)
    × (t.outbound ≡ (1 ∷ []) ∷ [])
    × (t.manager ≡ add_message 1 new_manager)
    × (ship lib log
          (record { writer = open_writer []; reader = holding [] (chunk t.writer.written ∷ []) })
        ≡ ships conn)
unfolding protobuf_to_source to_protobuf source_to_broker write_new_message write_message
    message_to_protobuf write_protobuf write put_uint32 words
ship-acknowledged_example =
    ship-acknowledged lib log [] (1 ∷ []) source 3 words-RoundTrips refl refl refl refl refl
      (omega arith) refl (omega arith)

abbrev gone : Conn
gone = record {
  writer = record { written = []; outcomes = some (0, io 1) ∷ [] };
  reader = holding [] [];
}

-- A write that fails stops the nomad source with a panic; the dummy source begins its next round, and
-- returns there for want of an answer.
gone_test : ship lib log gone ≡ panicked
unfolding ship to_protobuf message_to_protobuf write_protobuf write put_uint32 words
gone_test = refl

gone_dummy_test :
    dummy_round lib gone ≡ ships (record { writer = open_writer []; reader = holding [] [] })
unfolding dummy_round to_protobuf write_new_message write_message message_to_protobuf write_protobuf
    write put_uint32 words
gone_dummy_test = refl

-- Without a HELLO the nomad source ends the connection and the dummy source panics.
silent_test : accept_nomad lib none gone ≡ ended gone
unfolding accept_nomad wait_for_hello wait_for read_message read conn_read
silent_test = refl

silent_dummy_test : accept_dummy lib 1 gone ≡ panicked
unfolding accept_dummy wait_for_hello wait_for read_message read conn_read
silent_dummy_test = refl

-- A conversation: HELLO, one message, and its OK.
abbrev talk : Conn
talk = record {
  writer = open_writer [];
  reader = holding [] (chunk (1 ∷ 0 ∷ 0 ∷ 0 ∷ 1 ∷ []) ∷ chunk (1 ∷ 0 ∷ 0 ∷ 0 ∷ 2 ∷ []) ∷ []);
}

talk_test :
    accept_nomad lib (some (log ∷ [])) talk
    ≡ ships (record { writer = open_writer (1 ∷ 0 ∷ 0 ∷ 0 ∷ 4 ∷ []); reader = holding [] [] })
unfolding accept_nomad wait_for_hello wait_for_ok wait_for read_message read conn_read uint32
    ship_all ship to_protobuf message_to_protobuf write_protobuf write put_uint32 words
talk_test = refl

rounds_test :
    dummy_rounds lib 2 (record talk { reader = holding [] [] })
    ≡ ended (record { writer = open_writer (1 ∷ 0 ∷ 0 ∷ 0 ∷ 4 ∷ []); reader = holding [] [] })
unfolding dummy_rounds dummy_round wait_for_ok wait_for read_message read conn_read to_protobuf
    write_new_message write_message message_to_protobuf write_protobuf write put_uint32 words
rounds_test = refl
