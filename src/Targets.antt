-- ===== src/Targets.antt =====
-- target/: the servers of the targets blackhole, stdout and logzio. They differ in what they do with
-- a message, which is a parameter of their loop.
pub mod Logzio
pub mod Servers
pub mod Exchange
mod Tests
use log_shipper.Base.{
  ℕ, String, Bool, true, false, Option, none, some, List, [], ◌∷◌, ◌++◌, if◌then◌else◌, str_eq,
}
use log_shipper.Protocol.Input.{Fault, Reader}
use log_shipper.Protocol.{
  Message, Writer, command_target_log, command_bye, send_ok, send_bye, wait_for_hello,
}
use log_shipper.Protocol.Channel.{Sent, delivered, failed, read_to_channel}
use log_shipper.Message.{TargetMessage, protobuf_to_target}
use log_shipper.Broker.Target.{Library}

-- The connection of a server, whether the server has closed it, and what it does with messages.
pub record Session (S : Type 0) : Type 0 where
  pub conn : Writer
  pub closed : Bool
  pub sink : S

-- The loop waits at its `select`, has returned, or the program has panicked.
pub data Served (S : Type 0) : Type 0 where
  waits returned : Session S → Served S
  panicked : Served S

module _ {S : Type 0} (lib : Library) (consume : TargetMessage → S → Option S) where
  close : Session S → Session S
  close s = record s { closed = true }

  -- The deferred function: a BYE, which a closed connection does not take.
  defer : Session S → Session S
  unfolding close
  defer s = close (if s.closed then s else record s { conn = send_bye lib.wire s.conn })

  consumed : Session S → Option S → Served S
  consumed s none = panicked
  consumed s (some sink) = waits (record s { conn = send_ok lib.wire s.conn; sink = sink })

  log_message : Session S → TargetMessage × Option Fault → Served S
  unfolding consumed
  log_message s (t, some fault) = waits s
  log_message s (t, none) = consumed s (consume t s.sink)

  take_message : Message → Session S → Served S
  unfolding log_message defer close
  take_message m s =
      if str_eq m.command command_target_log
      then log_message s (protobuf_to_target lib.codecs m.payload)
      else if str_eq m.command command_bye
      then returned (defer (close s))
      else waits s

  -- One round of the loop, for what one of the two channels gives.
  unfoldable pub turn : Sent → Session S → Served S
  unfolding take_message defer close
  turn (delivered m) s = take_message m s
  turn (failed fault) s = returned (defer (close s))

  pub after_turn : (Session S → Served S) → Served S → Served S
  after_turn next (waits s) = next s
  after_turn next (returned s) = returned s
  after_turn next panicked = panicked

  unfoldable pub serve : List Sent → Session S → Served S
  unfolding after_turn
  serve [] s = waits s
  serve (event ∷ events) s = after_turn (serve events) (turn event s)

  -- The goroutine of `Start` with an accepted connection: the handshake, and then the loop over what
  -- `ReadToChannel` sends. `none` means that the fuel of the reading loop ran out.
  greeted : ℕ → Session S → Bool × Reader → Option (Served S)
  unfolding serve
  greeted fuel s (false, r) = some panicked
  greeted fuel s (true, r) = serve_all (read_to_channel lib.wire fuel r)
    where
      serve_all : Option (List Sent) → Option (Served S)
      serve_all none = none
      serve_all (some events) = some (serve events s)

  unfoldable pub accept : ℕ → Reader → Session S → Option (Served S)
  unfolding greeted
  accept fuel r s = greeted fuel s (wait_for_hello lib.wire r)

-- target/blackhole: nothing. target/stdout: the message is printed.
abbrev pub swallow : TargetMessage → Unit {0} → Option (Unit {0})
swallow t s = some s

abbrev pub print : TargetMessage → List TargetMessage → Option (List TargetMessage)
print t printed = some (printed ++ t ∷ [])
