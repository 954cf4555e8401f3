-- ===== src/Targets/Exchange.antt =====
-- The broker and the server of a target, over the two directions of one connection.
use log_shipper.Base.{ℕ, ◌≤◌, ◌≡◌, refl, true, false, Option, none, some, List, [], ◌∷◌}
use log_shipper.Base.Lists.{length}
use log_shipper.Protocol.Input.{chunk, buffer_size}
use log_shipper.Protocol.{
  Message, RoundTrips, command_target_log, command_ok, write_new_message, send_ok, wait_for_ok,
}
use log_shipper.Protocol.Stream.{holding, open_writer}
use log_shipper.Protocol.Channel.{Sent, delivered, read_to_channel, read_to_channel-write_messages}
use log_shipper.Protocol.Handshake.{write_one, wait_for-write_new_message}
use log_shipper.Message.{TargetMessage, protobuf_to_target}
use log_shipper.Broker.Target.{Library}
use log_shipper.Targets.{Session, waits, serve, take_message, turn}

abbrev pub fresh : {S : Type 0} → S → Session S
fresh sink = record { conn = open_writer []; closed = false; sink = sink }

module _ {S : Type 0} (lib : Library) (consume : TargetMessage → S → Option S) where
  -- What the broker sends for a message, if the connection takes it and it arrives in one piece that
  -- fits the buffer, is read by the target's server as this one message. A server whose handling of it
  -- does not fail takes it in and goes on, and its answer, if that goes through and arrives likewise,
  -- is the OK that the broker waits for.
  pub log-confirmed :
      (raw : List ℕ) (t : TargetMessage) (sink sink' : S)
      → RoundTrips lib.wire
      → protobuf_to_target lib.codecs raw ≡ (t, none)
      → consume t sink ≡ some sink'
      → (write_new_message lib.wire (open_writer []) command_target_log raw).0 ≡ none
      → length (write_new_message lib.wire (open_writer []) command_target_log raw).1.written
        ≤ buffer_size
      → (write_new_message lib.wire (open_writer []) command_ok []).0 ≡ none
      → length (write_new_message lib.wire (open_writer []) command_ok []).1.written ≤ buffer_size
      → (events : List Sent) × (s : Session S) × (read_to_channel lib.wire 2 (
            holding [] (
              chunk (write_new_message lib.wire (open_writer []) command_target_log raw).1.written
              ∷ []))
          ≡ some events)
        × (serve lib consume events (fresh sink) ≡ waits s)
        × (s.sink ≡ sink')
        × (wait_for_ok lib.wire (holding [] (chunk s.conn.written ∷ [])) ≡ (true, holding [] []))
  unfolding serve turn take_message wait_for_ok send_ok write_new_message
  log-confirmed raw t sink sink' trip parses consumes sent fits answer answer_fits = (
    delivered (record { command = command_target_log; payload = raw }) ∷ [],
    record { conn = send_ok lib.wire (open_writer []); closed = false; sink = sink' },
    rw (write_one lib.wire (open_writer []) message) at (
        read_to_channel-write_messages lib.wire trip message []
          (rw (write_one lib.wire (open_writer []) message) sent)
          (rw (write_one lib.wire (open_writer []) message) fits)),
    rw parses (rw consumes refl),
    refl,
    wait_for-write_new_message lib.wire trip command_ok command_ok [] [] answer answer_fits,
  )
    where
      message : Message
      message = record { command = command_target_log; payload = raw }
