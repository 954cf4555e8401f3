-- ===== src/Broker/Target/Goroutine/Messages.antt =====
-- The life of a target's goroutine that gets messages and then the stop.
use log_shipper.Base.{
  ℕ, suc, ◌+◌, ◌-◌, ◌≤◌, ◌<◌, ◌≡◌, refl, sym, ap, ◌∙◌, arith, String, true, Option, none, some,
  List, [], ◌∷◌, ◌++◌, map,
}
use log_shipper.Base.Lists.{length}
use log_shipper.Base.Word.{u64_mod}
use log_shipper.Protocol.{
  Message, Codec, Writer, write_message, write_new_message, wait_for_ok, send_hello, send_bye,
  command_target_log,
}
use log_shipper.Protocol.Input.{Fault, Reader}
use log_shipper.Protocol.Stream.{write_messages, after_write}
use log_shipper.Message.{BrokerMessage, protobuf_to_broker, to_protobuf, broker_to_target}
use log_shipper.Monitoring.Counters.{
  increment_bytes, increment_messages_inbound, increment_messages_outbound, add_in_flight_message,
  remove_in_flight_message,
}
use log_shipper.Monitoring.{set_connection_state}
use log_shipper.Broker.Manager.{done}
use log_shipper.Broker.Target.{Library, World, begin, count_for_rules, set_state, count_rule}
use log_shipper.Broker.Target.Rules.{first_breach}
use log_shipper.Broker.System.Counting.{complete_message-Completed}
use log_shipper.Broker.Target.Delivery.{receive-confirmed, confirmed, complete_some}
use log_shipper.Broker.Target.Goroutine.{
  Event, arrived, stopping, left, connected, after_round, loop, handle, greeted, release, released,
  say_bye,
}

-- A message on the channel of a target: when it came, its bytes, what they say, and what is sent on.
pub record Item : Type 0 where
  pub now : ℕ
  pub raw : List ℕ
  pub says : BrokerMessage
  pub out : List ℕ

-- The item is right: its bytes can be parsed, and what they say can be marshalled for the target.
abbrev pub Good : Library → String → Item → Type 0
Good lib name i =
    (protobuf_to_broker lib.codecs i.raw ≡ (i.says, none))
    × (to_protobuf lib.codecs.of_target (broker_to_target name i.says) ≡ some i.out)

abbrev pub AllGood : Library → String → List Item → Type 0
AllGood lib name [] = Unit
AllGood lib name (i ∷ items) = Good lib name i × AllGood lib name items

-- The target answers so many messages with OK.
abbrev pub Confirms : Codec Message → List Item → Reader → Type 0
Confirms c [] r = Unit
Confirms c (i ∷ items) r = ((wait_for_ok c r).0 ≡ true) × Confirms c items (wait_for_ok c r).1

abbrev pub log_frame : Item → Message
log_frame i = record { command = command_target_log; payload = i.out }

abbrev pub arrivals_of : List Item → List (ℕ × Event)
arrivals_of [] = []
arrivals_of (i ∷ items) = (i.now, arrived i.raw) ∷ arrivals_of items

-- What the goroutine leaves behind.
pub record Done (lib : Library) (items : List Item) (w w' : World) : Type 0 where
  pub sent :
      w'.writer ≡ send_bye lib.wire (write_messages lib.wire w.writer (map log_frame items)).1
  pub settled : w'.manager.in_flight + length items ≡ w.manager.in_flight
  pub one_less : w'.manager.target_wait + 1 ≡ w.manager.target_wait
  pub nothing_on : w'.sends ≡ w.sends
  pub finished : w'.connection.state ≡ "finished"

release_lem :
    (w : World) (n : ℕ)
    → w.manager.target_wait ≡ suc n
    → release w ≡ left (record w { manager = record (w.manager) { target_wait = n } })
unfolding release
release_lem w n e = ap (λ k. released w (done k)) e

-- A row of writes that all succeed begins with one that does.
after_write-none :
    (next : Writer → Option Fault × Writer) (x : Option Fault × Writer)
    → (after_write next x).0 ≡ none
    → (x ≡ (none, x.1)) × (after_write next x ≡ next x.1)
after_write-none next (none, w) e = (refl, refl)
after_write-none next (some fault, w) e = absurd (ground (arith, e))

module _ (lib : Library) (stop : ℕ) where
  loop-Done :
      (items : List Item) (w : World)
      → w.rules ≡ []
      → AllGood lib w.name items
      → (write_messages lib.wire w.writer (map log_frame items)).0 ≡ none
      → Confirms lib.wire items w.reader
      → length items ≤ w.manager.in_flight
      → w.connection.stats.messages_in_flight < u64_mod
      → 1 ≤ w.manager.target_wait
      → (w' : World) × (loop lib (arrivals_of items ++ (stop, stopping) ∷ []) w ≡ left w')
        × Done lib items w w'
  unfolding loop say_bye confirmed begin count_for_rules write_messages write_new_message
      set_connection_state increment_bytes increment_messages_inbound increment_messages_outbound
      add_in_flight_message remove_in_flight_message
  loop-Done [] w no_rules good written ok enough small counted = (
    _,
    release_lem (set_state "finished" (say_bye lib (set_state "waiting" w)))
        (w.manager.target_wait - 1) (omega (arith, counted)),
    record {
      sent = refl;
      settled = omega arith;
      one_less = omega (arith, counted);
      nothing_on = refl;
      finished = refl;
    },
  )
  loop-Done (i ∷ items) w no_rules good written ok enough small counted =
      let n = w.manager.in_flight - 1 in
      let some_count : w.manager.in_flight ≡ suc n = omega (arith, enough) in
      let waiting = set_state "waiting" w in
      let wrote =
        after_write-none (λ w'. write_messages lib.wire w' (map log_frame items))
          (write_message lib.wire w.writer (log_frame i)) written in
      let done_ = complete_some w.manager n some_count in
      let reader = (wait_for_ok lib.wire w.reader).1 in
      let answer : wait_for_ok lib.wire w.reader ≡ (true, reader) = λ j. (ok.0 j, reader) in
      let writer = (write_message lib.wire w.writer (log_frame i)).1 in
      let passes : first_breach w.rules ≡ none = ap first_breach no_rules in
      let next =
        confirmed lib i.now i.raw i.out i.says waiting writer n good.0.0 good.0.1 passes wrote.0
          some_count reader done_.0 in
      let round =
        receive-confirmed lib i.now i.raw i.out i.says waiting writer n good.0.0 good.0.1 passes
          wrote.0 some_count reader done_.0 answer done_.1 in
      let wait = (complete_message-Completed w.manager done_.1).same_target_wait in
      let rest =
        loop-Done items next (ap (map (count_rule (length i.out))) no_rules) good.1
          (ap (λ x. x.0) (sym wrote.1) ∙ written) ok.1 (omega (arith, done_.2, enough))
          (omega (arith, small)) (omega (arith, wait, counted)) in
      (
        rest.0,
        ap (after_round lib (loop lib (arrivals_of items ++ (stop, stopping) ∷ []))) round ∙ rest.1,
        record {
          sent = rest.2.sent ∙ ap (λ x. send_bye lib.wire x.1) (sym wrote.1);
          settled = omega (arith, rest.2.settled, done_.2, some_count);
          one_less = rest.2.one_less ∙ wait;
          nothing_on = rest.2.nothing_on;
          finished = rest.2.finished;
        },
      )

  -- A target without rate limits that is dialled and takes the HELLO, for any number of messages that
  -- can be parsed and marshalled, that the connection takes and that the target confirms, and the
  -- stop after them: the goroutine writes the HELLO, a frame for each message in their order and a
  -- BYE, completes each message and hands none on, and leaves the wait group of the targets once.
  pub handle-Done :
      (items : List Item) (now : ℕ) (writer greeted_writer : Writer) (reader : Reader) (w : World)
      → send_hello lib.wire writer ≡ (true, greeted_writer)
      → w.rules ≡ []
      → AllGood lib w.name items
      → (write_messages lib.wire greeted_writer (map log_frame items)).0 ≡ none
      → Confirms lib.wire items reader
      → length items ≤ w.manager.in_flight
      → w.connection.stats.messages_in_flight < u64_mod
      → 1 ≤ w.manager.target_wait
      → (w' : World) × (handle lib now
            (connected writer reader)
            (arrivals_of items ++ (stop, stopping) ∷ [])
            w
          ≡ left w')
        × Done lib items (record w { writer = greeted_writer; reader = reader }) w'
  unfolding handle greeted
  handle-Done items now writer greeted_writer reader w hello no_rules good written ok enough small
        counted =
      let rest =
        loop-Done items (record w { writer = greeted_writer; reader = reader }) no_rules good
          written ok enough small counted in
      (rest.0, rw hello (rest.1), rest.2)
