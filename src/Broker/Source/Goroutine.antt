-- ===== src/Broker/Source/Goroutine.antt =====
-- broker/connector.go: `SourceConnector.Handle` from the start of its goroutine to its end, with the
-- rounds of Broker.Source in between.
pub mod Lines
mod Tests
use log_shipper.Base.{ℕ, String, Bool, true, false, Option, none, some, List, [], ◌∷◌}
use log_shipper.Protocol.{Writer, send_hello, send_bye}
use log_shipper.Monitoring.{
  Details, Connection, Monitor, new_connection, set_connection_state, add_connection,
}
use log_shipper.Broker.Manager.{Manager, Panic, negative_counter, done}
use log_shipper.Broker.Target.{Library}
use log_shipper.Broker.Source.{
  Source, Event, incoming, faulty, stopping, Turn, continues, returns, enter_state, report_to, turn,
}

-- The goroutine waits at its `select`, has returned, or has brought the program down.
pub data Life : Type 0 where
  waits left : Source → Life
  crashed : Panic → Life

-- The outcome of dialling: the text of an error, or the connection to write to. What arrives on it is
-- read by `ReadToChannel`, and comes as events.
pub data Dial : Type 0 where
  refused : String → Dial
  connected : Writer → Dial

-- The monitor lists the connection as it is when it is added.
register : Connection → Option Monitor → Option Monitor
register c none = none
register c (some m) = some (add_connection c m)

unfoldable pub starting :
    String → String → Details → List String → Option Monitor → Manager → Source
unfolding register
starting name provider details targets monitor manager =
    let c = set_connection_state "starting" (new_connection details provider name "source") in
    record {
      name = name;
      targets = targets;
      connection = c;
      monitor = register c monitor;
      writer = record { written = []; outcomes = [] };
      manager = manager;
      outbound = [];
    }

-- The deferred `WaitGroup.Done`.
released : Source → Option ℕ → Life
released s none = crashed negative_counter
released s (some n) = left (record s { manager = record (s.manager) { source_wait = n } })

unfoldable pub release : Source → Life
unfolding released
release s = released s (done s.manager.source_wait)

-- The deferred BYE, which finds the connection closed after a stop.
say_bye : Library → Event → Source → Source
say_bye lib (incoming m) s = record s { writer = send_bye lib.wire s.writer }
say_bye lib (faulty fault) s = record s { writer = send_bye lib.wire s.writer }
say_bye lib stopping s = s

unfoldable pub after_round : Library → Event → (Source → Life) → Turn → Life
unfolding say_bye
after_round lib e next (continues s) = next s
after_round lib e next (returns s) = release (say_bye lib e s)

unfoldable pub loop : Library → List (ℕ × Event) → Source → Life
loop lib [] s = waits (enter_state "waiting" s)
loop lib ((now, e) ∷ events) s = after_round lib e (loop lib events) (turn lib now e s)

-- The end of a connection that was not dialled, or did not take the HELLO: no BYE, and it stays open.
give_up_start : String → ℕ → Source → Life
give_up_start text now s =
    let s' = enter_state "dead" s in release (report_to text now s' s'.monitor)

greeted : Library → ℕ → List (ℕ × Event) → Source → Bool × Writer → Life
unfolding give_up_start
greeted lib now events s (true, writer) = loop lib events (record s { writer = writer })
greeted lib now events s (false, writer) =
    give_up_start "failed to send hello to source" now (record s { writer = writer })

-- `Handle`, from the dial on.
unfoldable pub run : Library → ℕ → Dial → List (ℕ × Event) → Source → Life
unfolding greeted give_up_start report_to
run lib now (refused text) events s = give_up_start text now s
run lib now (connected writer) events s = greeted lib now events s (send_hello lib.wire writer)
