-- ===== src/Targets/Tests.antt =====
-- The theorems on the servers of targets at a short conversation.
use log_shipper.Base.{
  Option, if◌then◌else◌, ℕ, ◌+◌, ◌≡◌, refl, arith, true, none, some, List, [], ◌∷◌, ◌++◌, map,
}
use log_shipper.Base.Dict.{lookup, insert}
use log_shipper.Protocol.Frame.{put_uint32, uint32}
use log_shipper.Protocol.Input.{chunk, Reader, read, conn_read}
use log_shipper.Protocol.{
  Message, write, write_protobuf, write_message, message_to_protobuf, command_target_log,
  command_bye, command_hello, write_new_message, wait_for_ok, wait_for_hello, wait_for,
  read_message,
}
use log_shipper.Protocol.Stream.{holding, open_writer, write_messages}
use log_shipper.Protocol.Channel.{Sent, delivered, read_to_channel}
use log_shipper.Protocol.Sample.{words, words-RoundTrips}
use log_shipper.Message.{Attributes, SourceMessage, TargetMessage, protobuf_to_target}
use log_shipper.Broker.Sample.{lib}
use log_shipper.Targets.{Session, waits, panicked, turn, serve, accept, print}
use log_shipper.Targets.Servers.{outcome, accept_lem}
use log_shipper.Targets.Exchange.{fresh, log-confirmed}
use log_shipper.Targets.Logzio.{Logz, ship, text, logzio_message}

abbrev line : Message
line = record { command = command_target_log; payload = 7 ∷ 8 ∷ [] }

abbrev hello : Message
hello = record { command = command_hello; payload = [] }

abbrev bye : Message
bye = record { command = command_bye; payload = [] }

abbrev count : TargetMessage → ℕ → Option ℕ
count t n = some (n + 1)

-- A broker that says HELLO, sends a message and a BYE, and another message behind it.
abbrev broker : Reader
broker =
    let said = hello ∷ line ∷ bye ∷ line ∷ [] in
    holding [] (chunk (write_messages words (open_writer []) said).1.written ∷ [])

accept_lem_example :
    (events : List Sent) × (read_to_channel words 50 (wait_for_hello words broker).1 ≡ some events)
    × (accept lib print 50 broker (fresh [])
        ≡ some (
            if (wait_for_hello words broker).0
            then outcome lib print events (fresh [])
            else panicked))
unfolding wait_for_hello wait_for read_message read conn_read write_messages write_message
    message_to_protobuf write_protobuf write put_uint32 uint32 words
accept_lem_example = accept_lem lib print 50 broker (fresh []) refl (omega arith)

-- A message without a source message, or without attributes, ends the server of logz.io.
abbrev logz : Logz (List (List ℕ))
logz = record {
  format = λ t. "then";
  marshal = λ fields. some [];
  send = λ out sent. some (sent ++ out ∷ []);
}

logzio_test : serve lib (ship logz) (map delivered (line ∷ [])) (fresh []) ≡ panicked
unfolding serve turn protobuf_to_target ship
logzio_test = refl

log-confirmed_example :
    (events : List Sent) × (s : Session ℕ) × (read_to_channel words 2 (
        holding [] (
          chunk (write_new_message words (open_writer []) command_target_log (7 ∷ 8 ∷ [])).1.written
          ∷ []))
      ≡ some events)
    × (serve lib count events (fresh 0) ≡ waits s)
    × (s.sink ≡ 1)
    × (wait_for_ok words (holding [] (chunk s.conn.written ∷ [])) ≡ (true, holding [] []))
unfolding protobuf_to_target write_new_message write_message message_to_protobuf write_protobuf
    write put_uint32 words
log-confirmed_example =
    log-confirmed lib count (7 ∷ 8 ∷ [])
      (record { target = ""; source = ""; source_message = none }) 0 1 words-RoundTrips refl refl
      refl (omega arith) refl (omega arith)

abbrev attributes : Attributes
attributes = record { timestamp = 5; attribute_type = "nginx" }

abbrev message : SourceMessage
message = record {
  id = "1";
  message = 104 ∷ 105 ∷ [];
  meta = ("type", "own") ∷ ("host", "h1") ∷ [];
  attributes = some attributes;
}

overridden_test :
    lookup "type" (logzio_message (λ n. "then") message attributes) ≡ some (text "own")
unfolding lookup insert logzio_message
overridden_test = refl
