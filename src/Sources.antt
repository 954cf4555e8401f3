-- ===== src/Sources.antt =====
-- source/dummy/dummy.go and source/nomad/server.go: the servers of the sources, behind an accepted
-- connection.
pub mod Exchange
mod Tests
use log_shipper.Base.{ℕ, zero, suc, Bool, true, false, Option, none, some, List, [], ◌∷◌}
use log_shipper.Protocol.Input.{Fault, Reader}
use log_shipper.Protocol.{
  Message, Writer, command_source_message, write_new_message, write_protobuf, message_to_protobuf,
  wait_for_hello, wait_for_ok,
}
use log_shipper.Message.{SourceMessage, to_protobuf}
use log_shipper.Broker.Target.{Library}

-- The two directions of a connection.
pub record Conn : Type 0 where
  pub writer : Writer
  pub reader : Reader

-- The loop goes on, the goroutine has returned and closed the connection, or the program has
-- panicked.
pub data Shipped : Type 0 where
  ships ended : Conn → Shipped
  panicked : Shipped

-- The answer of the broker.
awaited : Conn → Bool × Reader → Shipped
awaited conn (true, r) = ships (record conn { reader = r })
awaited conn (false, r) = ended (record conn { reader = r })

pub after_round : (Conn → Shipped) → Shipped → Shipped
after_round next (ships conn) = next conn
after_round next (ended conn) = ended conn
after_round next panicked = panicked

abbrev pub source_message : List ℕ → Message
source_message bytes = record { command = command_source_message; payload = bytes }

module _ (lib : Library) where
  written : Conn → Option Fault × Writer → Shipped
  unfolding awaited
  written conn (some fault, w) = panicked
  written conn (none, w) = awaited (record conn { writer = w }) (wait_for_ok lib.wire conn.reader)

  write_marshalled : Conn → Option (List ℕ) → Shipped
  unfolding written
  write_marshalled conn none = panicked
  write_marshalled conn (some bytes) = written conn (write_protobuf conn.writer bytes)

  wrapped : Conn → Option (List ℕ) → Shipped
  unfolding write_marshalled
  wrapped conn none = panicked
  wrapped conn (some bytes) =
      write_marshalled conn (message_to_protobuf lib.wire (source_message bytes))

  -- One round of the loop of the nomad source, for a message that its client sends.
  unfoldable pub ship : SourceMessage → Conn → Shipped
  unfolding wrapped
  ship log conn = wrapped conn (to_protobuf lib.codecs.of_source log)

  unfoldable pub ship_all : List SourceMessage → Conn → Shipped
  unfolding after_round
  ship_all [] conn = ships conn
  ship_all (log ∷ logs) conn = after_round (ship_all logs) (ship log conn)

  -- The goroutine of a connection, for what the client sends; without a HELLO it returns, and
  -- `none` is a client that cannot be made.
  greeted : Conn → Option (List SourceMessage) → Bool × Reader → Shipped
  unfolding ship_all
  greeted conn client (false, r) = ended (record conn { reader = r })
  greeted conn none (true, r) = panicked
  greeted conn (some logs) (true, r) = ship_all logs (record conn { reader = r })

  unfoldable pub accept_nomad : Option (List SourceMessage) → Conn → Shipped
  unfolding greeted
  accept_nomad client conn = greeted conn client (wait_for_hello lib.wire conn.reader)

  -- The message of the dummy source. Errors begin the next round.
  abbrev test_message : SourceMessage
  test_message = record {
    id = "1";
    message = 84 ∷ 101 ∷ 115 ∷ 116 ∷ [];
    meta = ("some-key", "some-value") ∷ [];
    attributes = none;
  }

  sent : Conn → Option Fault × Writer → Shipped
  unfolding awaited
  sent conn (some fault, w) = ships (record conn { writer = w })
  sent conn (none, w) = awaited (record conn { writer = w }) (wait_for_ok lib.wire conn.reader)

  marshalled : Conn → Option (List ℕ) → Shipped
  unfolding sent
  marshalled conn none = ships conn
  marshalled conn (some bytes) =
      sent conn (write_new_message lib.wire conn.writer command_source_message bytes)

  unfoldable pub dummy_round : Conn → Shipped
  unfolding marshalled
  dummy_round conn = marshalled conn (to_protobuf lib.codecs.of_source test_message)

  -- So many rounds of the loop.
  unfoldable pub dummy_rounds : ℕ → Conn → Shipped
  unfolding after_round
  dummy_rounds zero conn = ships conn
  dummy_rounds (suc n) conn = after_round (dummy_rounds n) (dummy_round conn)

  dummy_greeted : ℕ → Conn → Bool × Reader → Shipped
  unfolding dummy_rounds
  dummy_greeted n conn (false, r) = panicked
  dummy_greeted n conn (true, r) = dummy_rounds n (record conn { reader = r })

  unfoldable pub accept_dummy : ℕ → Conn → Shipped
  unfolding dummy_greeted
  accept_dummy n conn = dummy_greeted n conn (wait_for_hello lib.wire conn.reader)
