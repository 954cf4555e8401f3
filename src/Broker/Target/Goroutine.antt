-- ===== src/Broker/Target/Goroutine.antt =====
-- broker/connector.go: `TargetConnector.Handle` from the start of its goroutine to its end, with the
-- rounds of Broker.Target in between.
pub mod Messages
mod Tests
use log_shipper.Base.{ℕ, String, Bool, true, false, Option, none, some, List, [], ◌∷◌}
use log_shipper.Protocol.Input.{Reader}
use log_shipper.Protocol.{Writer, send_hello, send_bye}
use log_shipper.Monitoring.{
  Details, Connection, Monitor, fatal, new_connection, set_connection_state, add_connection,
  log_for_connection,
}
use log_shipper.Broker.Manager.{Manager, Panic, negative_counter, nil_dereference, done}
use log_shipper.Broker.Target.{
  Library, World, Outcome, continues, returns, panics, RateLimitRule, set_state, log_if_monitored,
  receive,
}

-- What the loop waits for: a message on the channel `Inbound`, or the close of `StopChan`.
pub data Event : Type 0 where
  arrived : List ℕ → Event
  stopping : Event

-- The goroutine waits at its `select`, has returned, or has brought the program down.
pub data Life : Type 0 where
  waits left : World → Life
  crashed : Panic → Life

-- The outcome of dialling: the text of an error, or the two directions of a connection.
pub data Dial : Type 0 where
  refused : String → Dial
  connected : Writer → Reader → Dial

-- `if t.Manager.Monitor != nil { ... AddConnection(...) }`. The monitor lists the connection as it is
-- when it is added.
register : Connection → Option Monitor → Option Monitor
register c none = none
register c (some m) = some (add_connection c m)

-- The monitored connection of a target, before it is dialled.
unfoldable pub starting :
    String → String → Details → List RateLimitRule → Option Monitor → Manager → World
unfolding register
starting name provider details rules monitor manager =
    let c = set_connection_state "starting" (new_connection details provider name "target") in
    record {
      name = name;
      rules = rules;
      connection = c;
      monitor = register c monitor;
      writer = record { written = []; outcomes = [] };
      reader = record { buffered = []; arrivals = [] };
      manager = manager;
      sends = [];
    }

-- The deferred `WaitGroup.Done`.
released : World → Option ℕ → Life
released w none = crashed negative_counter
released w (some n) = left (record w { manager = record (w.manager) { target_wait = n } })

unfoldable pub release : World → Life
unfolding released
release w = released w (done w.manager.target_wait)

unfoldable pub say_bye : Library → World → World
say_bye lib w = record w { writer = send_bye lib.wire w.writer }

-- A dial that failed is logged with no test whether there is a monitor.
dead_on_arrival : String → ℕ → World → Option Monitor → Life
dead_on_arrival text now w none = crashed nil_dereference
dead_on_arrival text now w (some m) =
    let (c, m') = log_for_connection fatal text now (set_connection_state "dead" w.connection) m in
    release (record w { connection = c; monitor = some m' })

-- The HELLO. Where it fails the goroutine goes on.
greeted : ℕ → World → Bool × Writer → World
greeted now w (true, writer) = record w { writer = writer }
greeted now w (false, writer) =
    log_if_monitored fatal "did not receive HELLO from server" now
      (set_state "dead" (record w { writer = writer }))

-- What follows a round: the next one, or the deferred BYE and `Done`.
unfoldable pub after_round : Library → (World → Life) → Outcome → Life
unfolding say_bye
after_round lib next (continues w) = next w
after_round lib next (returns w) = release (say_bye lib w)
after_round lib next (panics p) = crashed p

-- The loop. On a stop the BYE goes out before the connection is closed, and the deferred one finds it
-- closed.
unfoldable pub loop : Library → List (ℕ × Event) → World → Life
unfolding after_round say_bye
loop lib [] w = waits (set_state "waiting" w)
loop lib ((now, arrived raw) ∷ events) w =
    after_round lib (loop lib events) (receive lib now raw (set_state "waiting" w))
loop lib ((now, stopping) ∷ events) w =
    release (set_state "finished" (say_bye lib (set_state "waiting" w)))

-- `Handle`, from the dial on.
unfoldable pub handle : Library → ℕ → Dial → List (ℕ × Event) → World → Life
unfolding dead_on_arrival greeted loop
handle lib now (refused text) events w = dead_on_arrival text now w w.monitor
handle lib now (connected writer reader) events w =
    let w' = record w { writer = writer; reader = reader } in
    loop lib events (greeted now w' (send_hello lib.wire writer))
