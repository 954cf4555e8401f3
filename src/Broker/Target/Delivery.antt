-- ===== src/Broker/Target/Delivery.antt =====
-- A message that passes the rules: what the target gets, and what its answer does.
use log_shipper.Base.{
  ℕ, suc, ◌<◌, ◌≡◌, refl, ap, ◌∙◌, Bool, true, false, Option, none, some, List, map, arith,
}
use log_shipper.Base.Word.{u64_mod, add64, not64}
use log_shipper.Base.Lists.{length}
use log_shipper.Protocol.{Writer, write_new_message, wait_for_ok, command_target_log}
use log_shipper.Protocol.Input.{Reader}
use log_shipper.Message.{BrokerMessage, protobuf_to_broker, to_protobuf, broker_to_target}
use log_shipper.Monitoring.{Monitor, set_connection_state}
use log_shipper.Monitoring.Counters.{
  increment_bytes, increment_messages_inbound, increment_messages_outbound, add_in_flight_message,
  remove_in_flight_message, increment_dropped_messages,
}
use log_shipper.Broker.Manager.{Manager, nil_dereference, done, complete, complete_message}
use log_shipper.Broker.Target.{
  Library, World, Outcome, continues, returns, panics, set_state, with_stats, completing,
  error_text, log_unanswered, unanswered, answered, delivered, deliver, limited, converted, parsed,
  begin, receive, count_for_rules, count_rule,
}
use log_shipper.Broker.Target.Rules.{first_breach, handle_rate_limiting-first_breach}

pub complete_some :
    (m : Manager) (n : ℕ)
    → m.in_flight ≡ suc n
    → (m' : Manager) × (complete_message m ≡ some m') × (m'.in_flight ≡ n)
unfolding complete_message
complete_some m n e = (
  record m { messages_in_flight = add64 m.messages_in_flight (not64 0); in_flight = n },
  ap (λ k. complete m (done k)) e,
  refl,
)

completing-some :
    (w : World) (next : World → Outcome) (m' : Manager)
    → complete_message w.manager ≡ some m'
    → completing w next ≡ next (record w { manager = m' })
unfolding completing
completing-some w next m' e = rw e

module _ (lib : Library) (now : ℕ) (raw out : List ℕ) (l : BrokerMessage) (w : World)
    (writer : Writer) (n : ℕ) (parses : protobuf_to_broker lib.codecs raw ≡ (l, none))
    (marshals : to_protobuf lib.codecs.of_target (broker_to_target w.name l) ≡ some out)
    (passes : first_breach w.rules ≡ none)
    (written : write_new_message lib.wire w.writer command_target_log out ≡ (none, writer))
    (counted : w.manager.in_flight ≡ suc n) where
  -- Up to the answer of the target.
  abbrev pub before_answer : Reader → World
  before_answer reader =
      with_stats (increment_messages_outbound 1)
        (record (begin raw w) { writer = writer; reader = reader })

  receive-answered :
      (ok : Bool) (reader : Reader)
      → wait_for_ok lib.wire w.reader ≡ (ok, reader)
      → receive lib now raw w ≡ answered lib now none (length out) (before_answer reader) ok
  unfolding receive parsed converted limited deliver delivered begin
  receive-answered ok reader answer = rw (
    parses,
    marshals,
    handle_rate_limiting-first_breach lib now l (begin raw w),
    passes,
    written,
    answer,
  )

  unfoldable pub confirmed : Reader → Manager → World
  unfolding count_for_rules begin
  confirmed reader m' =
      with_stats remove_in_flight_message
        (record (count_for_rules (length out) (before_answer reader)) { manager = m' })

  pub receive-confirmed :
      (reader : Reader) (m' : Manager)
      → wait_for_ok lib.wire w.reader ≡ (true, reader)
      → complete_message w.manager ≡ some m'
      → receive lib now raw w ≡ continues (confirmed reader m')
  unfolding answered begin count_for_rules confirmed
  receive-confirmed reader m' answer done_ =
      receive-answered true reader answer
      ∙ completing-some (count_for_rules (length out) (before_answer reader)) _ m' done_

  -- A message that can be parsed and marshalled, that no rule stops, that the connection takes and
  -- that the target confirms: the target got it in a frame of its own, every rule counts its
  -- bytes, one message less is in flight, nothing went elsewhere, and the loop goes on with one
  -- more message sent and as many in flight in its own counters as before.
  pub receive_delivers :
      (reader : Reader)
      → wait_for_ok lib.wire w.reader ≡ (true, reader)
      → w.connection.stats.messages_in_flight < u64_mod
      → (w' : World) × (receive lib now raw w ≡ continues w')
        × (w'.writer ≡ writer)
        × (w'.reader ≡ reader)
        × (w'.rules ≡ map (count_rule (length out)) w.rules)
        × (w'.manager.in_flight ≡ n)
        × (w'.sends ≡ w.sends)
        × (w'.connection.stats.messages_outbound ≡ add64 w.connection.stats.messages_outbound 1)
        × (w'.connection.stats.messages_in_flight ≡ w.connection.stats.messages_in_flight)
  unfolding confirmed answered begin count_for_rules increment_bytes increment_messages_inbound
      increment_messages_outbound add_in_flight_message remove_in_flight_message
      set_connection_state
  receive_delivers reader answer small =
      let (m', done_, fewer) = complete_some w.manager n counted in
      (
        confirmed reader m',
        receive-confirmed reader m' answer done_,
        refl,
        refl,
        refl,
        fewer,
        refl,
        refl,
        omega arith,
      )

  -- What a missing OK comes to, with a monitor and without.
  abbrev pub Unconfirmed : Option Monitor → Outcome → Type 0
  Unconfirmed none o =
      (w' : World) × (o ≡ returns w')
      × (w'.manager.in_flight ≡ n)
      × (w'.sends ≡ w.sends)
      × (w'.rules ≡ w.rules)
      × (w'.connection.state ≡ "dead")
      × (w'.connection.stats.dropped_messages ≡ add64 w.connection.stats.dropped_messages 1)
  Unconfirmed (some monitor) o = o ≡ panics nil_dereference

  -- A message that can be parsed and marshalled, that no rule stops and that the connection takes, to
  -- which the target answers anything but OK, or closes: without a monitor it is dropped and
  -- completed, no rule counts its bytes, nothing went elsewhere, and the goroutine ends as dead; with
  -- a monitor the program panics, at a log that reads the error of the write, which was nil.
  pub receive-Unconfirmed :
      (reader : Reader)
      → wait_for_ok lib.wire w.reader ≡ (false, reader)
      → Unconfirmed w.monitor (receive lib now raw w)
  unfolding answered begin unanswered error_text log_unanswered set_connection_state increment_bytes
      increment_messages_inbound increment_messages_outbound add_in_flight_message
      increment_dropped_messages
  receive-Unconfirmed reader answer =
      let (m', done_, fewer) = complete_some w.manager n counted in
      rw (receive-answered false reader answer ∙ completing-some (before_answer reader) _ m' done_)
        (go w.monitor m' fewer)
    where
      go :
          (monitor : Option Monitor) (m' : Manager)
          → m'.in_flight ≡ n
          → Unconfirmed monitor (
              unanswered lib now none
                (set_state "dead" (record (before_answer reader) { manager = m' }))
                monitor)
      go none m' fewer = (_, refl, fewer, refl, refl, refl, refl)
      go (some monitor) m' fewer = refl
