-- ===== src/Sources/Exchange.antt =====
-- The server of a source and the connector of the broker, over the two directions of one connection.
use log_shipper.Base.{
  Option, inl, inr, Option-cases, arith, ℕ, ◌≤◌, ◌≡◌, refl, true, none, some, List, [], ◌∷◌, ◌++◌,
}
use log_shipper.Base.Lists.{length}
use log_shipper.Protocol.Input.{chunk, buffer_size, Reader, Fault}
use log_shipper.Protocol.{
  RoundTrips, Writer, command_source_message, command_ok, write_new_message, write_message,
  message_to_protobuf, write_protobuf, send_ok, wait_for_ok,
}
use log_shipper.Protocol.Stream.{holding, open_writer}
use log_shipper.Protocol.Channel.{delivered, read_to_channel, read_to_channel-write_messages}
use log_shipper.Protocol.Handshake.{write_one, wait_for-write_new_message}
use log_shipper.Message.{SourceMessage, protobuf_to_source, to_protobuf, source_to_broker}
use log_shipper.Broker.Manager.{add_message}
use log_shipper.Broker.Target.{Library}
use log_shipper.Broker.Source.{Source, incoming, continues, turn}
use log_shipper.Sources.{Conn, ships, ship, written, source_message}

module _ (lib : Library) where
  -- The connector's part: it takes the message, answers, counts it and hands it to the workers.
  turn-publishes :
      (log : SourceMessage) (bytes raw : List ℕ) (s : Source) (now : ℕ)
      → protobuf_to_source lib.codecs bytes ≡ (log, none)
      → to_protobuf lib.codecs.of_broker (source_to_broker s.name s.targets log) ≡ some raw
      → (t : Source) × (turn lib now (incoming (source_message bytes)) s ≡ continues t)
        × (t.outbound ≡ s.outbound ++ raw ∷ [])
        × (t.manager ≡ add_message (length s.targets) s.manager)
        × (t.writer ≡ send_ok lib.wire s.writer)
  unfolding turn
  turn-publishes log bytes raw s now parses converts =
      rw (parses, converts) (_, refl, refl, refl, refl)

  written-ships :
      (conn : Conn) (r : Reader) (x : Option Fault × Writer)
      → x.0 ≡ none
      → wait_for_ok lib.wire conn.reader ≡ (true, r)
      → written lib conn x ≡ ships (record { writer = x.1; reader = r })
  unfolding written
  written-ships conn r (none, w) sent ok = rw ok refl
  written-ships conn r (some fault, w) sent ok = absurd (ground (arith, sent))

  -- The server's part, for an answer that is OK.
  ship-answered :
      (log : SourceMessage) (bytes : List ℕ) (conn : Conn) (r : Reader)
      → to_protobuf lib.codecs.of_source log ≡ some bytes
      → (write_new_message lib.wire conn.writer command_source_message bytes).0 ≡ none
      → wait_for_ok lib.wire conn.reader ≡ (true, r)
      → ship lib log conn
        ≡ ships (record {
          writer = (write_new_message lib.wire conn.writer command_source_message bytes).1;
          reader = r;
        })
  unfolding ship write_new_message write_message
  ship-answered log bytes conn r marshals sent ok =
      rw marshals (elim (Option-cases (message_to_protobuf lib.wire (source_message bytes))) [
        | inl e ↦ absurd (ground (arith, e, sent))
        | inr (body, e) ↦
            rw e (written-ships conn r (write_protobuf conn.writer body) (rw e at sent) ok)
      ])

  -- What the server of a source sends for a message, if the connection takes it and it arrives in one
  -- piece that fits the buffer, is read by the connector as this one message, which it counts in
  -- flight for each of its targets and hands to the workers; and the server takes its answer, sent
  -- and arriving likewise, as the OK that it waits for, and goes on.
  pub ship-acknowledged :
      (log : SourceMessage) (bytes raw : List ℕ) (s : Source) (now : ℕ)
      → RoundTrips lib.wire
      → to_protobuf lib.codecs.of_source log ≡ some bytes
      → protobuf_to_source lib.codecs bytes ≡ (log, none)
      → to_protobuf lib.codecs.of_broker (source_to_broker s.name s.targets log) ≡ some raw
      → s.writer ≡ open_writer []
      → (write_new_message lib.wire (open_writer []) command_source_message bytes).0 ≡ none
      → length (write_new_message lib.wire (open_writer []) command_source_message bytes).1.written
        ≤ buffer_size
      → (write_new_message lib.wire (open_writer []) command_ok []).0 ≡ none
      → length (write_new_message lib.wire (open_writer []) command_ok []).1.written ≤ buffer_size
      → (conn : Conn) × (t : Source) × (read_to_channel lib.wire 2
            (holding [] (chunk conn.writer.written ∷ []))
          ≡ some (delivered (source_message bytes) ∷ []))
        × (turn lib now (incoming (source_message bytes)) s ≡ continues t)
        × (t.outbound ≡ s.outbound ++ raw ∷ [])
        × (t.manager ≡ add_message (length s.targets) s.manager)
        × (ship lib log (record {
          writer = open_writer [];
          reader = holding [] (chunk t.writer.written ∷ []);
        })
            ≡ ships conn)
  unfolding ship turn send_ok wait_for_ok write_new_message
  ship-acknowledged log bytes raw s now trip marshals parses converts blank sent fits answer
        answer_fits =
      let published = turn-publishes log bytes raw s now parses converts in
      let ok =
        wait_for-write_new_message lib.wire trip command_ok command_ok [] [] answer answer_fits in
      (
        record {
          writer = (write_new_message lib.wire (open_writer []) command_source_message bytes).1;
          reader = holding [] [];
        },
        published.0,
        rw (write_one lib.wire (open_writer []) (source_message bytes)) at (
            read_to_channel-write_messages lib.wire trip (source_message bytes) []
              (rw (write_one lib.wire (open_writer []) (source_message bytes)) sent)
              (rw (write_one lib.wire (open_writer []) (source_message bytes)) fits)),
        published.1,
        published.2,
        published.3,
        ship-answered log bytes _ (holding [] []) marshals sent (rw (published.4, blank) ok),
      )
