-- ===== src/Broker/Pipeline/Tests.antt =====
-- Two messages of a source on their way to a target.
use log_shipper.Base.{ℕ, ◌+◌, ◌≡◌, refl, arith, none, some, List, [], ◌∷◌, ◌++◌}
use log_shipper.Protocol.Frame.{put_uint32, uint32}
use log_shipper.Protocol.Input.{chunk, read, conn_read, Reader}
use log_shipper.Protocol.{
  Writer, write, write_protobuf, write_message, message_to_protobuf, write_new_message, send_hello,
  send_bye, wait_for_ok, wait_for, read_message,
}
use log_shipper.Protocol.Stream.{write_messages, holding, open_writer}
use log_shipper.Protocol.Sample.{words}
use log_shipper.Message.{
  SourceMessage, Codecs, protobuf_to_source, protobuf_to_broker, to_protobuf, source_to_broker,
}
use log_shipper.Monitoring.{new_connection, new_monitor, new_process, set_connection_state}
use log_shipper.Monitoring.Counters.{new_stats}
use log_shipper.Broker.Sample as Sample
use log_shipper.Broker.Manager.{new_manager, finds_target, contains}
use log_shipper.Broker.Target.{Library, World}
use log_shipper.Broker.Target.Goroutine as Target
use log_shipper.Broker.Source.{Source, stopping}
use log_shipper.Broker.Source.Goroutine as Source
use log_shipper.Broker.Source.Goroutine.Lines as Lines
use log_shipper.Broker.Worker.{Worker, continues}
use log_shipper.Broker.Worker.Loop.{loop}
use log_shipper.Broker.Pipeline.{Carried, lines_of, frames_of, for_target, jobs}
use log_shipper.Broker.Pipeline.Arrival.{arrivals, lines_arrive}

abbrev says : SourceMessage
says = record { id = "1"; message = 104 ∷ []; meta = []; attributes = none }

abbrev codecs : Codecs
codecs = record {
  of_source = record { marshal = λ m. some []; unmarshal = λ bs. (says, none) };
  of_broker = record {
    marshal = λ m. some (2 ∷ []);
    unmarshal = λ bs. (
      record { source = "app"; targets = "spare" ∷ "logs" ∷ []; source_message = some says },
      none,
    );
  };
  of_target = record {
    marshal = λ m. some (7 ∷ 8 ∷ []);
    unmarshal = λ bs. (record { target = ""; source = ""; source_message = none }, none);
  };
}

abbrev lib : Library
lib = record Sample.lib { codecs = codecs }

abbrev carried : Carried
carried = record {
  line = record { now = 3; payload = 5 ∷ []; says = says; raw = 2 ∷ [] };
  out = 7 ∷ 8 ∷ [];
}

abbrev two : List Carried
two = carried ∷ carried ∷ []

abbrev source : Source
source =
    Source.starting "app" "dummy" (record { host = "127.0.0.1"; port = 1 }) ("spare" ∷ "logs" ∷ [])
      none (record new_manager { source_wait = 1 })

abbrev worker : Worker
worker = record {
  process = new_process "worker_0" "worker";
  monitor = none;
  manager = record new_manager { target_connectors = "logs" ∷ "spare" ∷ [] };
  sends = [];
}

abbrev world : World
world =
    Target.starting "logs" "stdout" (record { host = "127.0.0.1"; port = 2 }) []
      (some (new_monitor none)) (record new_manager { in_flight = 4; target_wait = 2 })

abbrev hello_sent : Writer
hello_sent = open_writer (1 ∷ 0 ∷ 0 ∷ 0 ∷ 1 ∷ [])

abbrev ok_frame : List ℕ
ok_frame = 1 ∷ 0 ∷ 0 ∷ 0 ∷ 2 ∷ []

abbrev answers : Reader
answers = holding [] (chunk ok_frame ∷ chunk ok_frame ∷ [])

lines_arrive_example :
    (s' : Source) × (v' : Worker) × (w' : World) × (Source.run lib 0
        (Source.connected (open_writer []))
        (Lines.arrivals_of (lines_of two) ++ (9, stopping) ∷ [])
        source
      ≡ Source.left s')
    × (loop lib (jobs 0 s'.outbound) worker ≡ continues v')
    × (Target.handle lib 0
          (Target.connected (open_writer []) answers)
          (arrivals 0 (for_target "logs" v'.sends) ++ (9, Target.stopping) ∷ [])
          world
        ≡ Target.left w')
    × (w'.writer ≡ send_bye words (write_messages words hello_sent (frames_of two)).1)
    × (w'.manager.in_flight + 2 ≡ 4)
unfolding Source.starting Target.starting new_manager new_connection new_stats set_connection_state
    protobuf_to_source protobuf_to_broker to_protobuf source_to_broker finds_target contains
    send_hello write_new_message write_messages write_message message_to_protobuf write_protobuf
    write put_uint32 words wait_for_ok wait_for read_message read conn_read uint32
lines_arrive_example =
    lines_arrive lib 0 9 two source worker world (open_writer []) hello_sent (open_writer [])
      hello_sent answers ((refl, refl, refl, refl), ((refl, refl, refl, refl), tt)) refl refl
      (omega arith) refl refl refl refl refl refl (refl, (refl, tt)) (omega arith) (omega arith)
      (omega arith)
