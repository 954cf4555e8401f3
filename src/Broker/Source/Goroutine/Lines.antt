-- ===== src/Broker/Source/Goroutine/Lines.antt =====
-- The life of a source's goroutine that gets messages and then the stop.
use log_shipper.Base.{
  ℕ, suc, ◌+◌, ◌-◌, ◌*◌, ◌≤◌, ◌≡◌, refl, sym, ap, ◌∙◌, arith, String, true, none, some, List, [],
  ◌∷◌, ◌++◌, map, append_assoc, append-nil,
}
use log_shipper.Base.Lists.{length}
use log_shipper.Protocol.{Message, Codec, Writer, command_source_message, send_ok, send_hello}
use log_shipper.Message.{SourceMessage, protobuf_to_source, to_protobuf, source_to_broker}
use log_shipper.Monitoring.{set_connection_state}
use log_shipper.Monitoring.Counters.{increment_messages_outbound, remove_in_flight_message}
use log_shipper.Broker.Manager.{add_message, done}
use log_shipper.Broker.Target.{Library}
use log_shipper.Broker.Source.{
  Source, Event, continues, update_stats, incoming, stopping, turn, enter_state, take_message, wrap,
  publish, begin_message,
}
use log_shipper.Broker.Source.Goroutine.{
  left, connected, after_round, loop, run, greeted, release, released,
}

-- A message of the source: when it came, its bytes, what they say, and what the broker makes of it.
pub record Line : Type 0 where
  pub now : ℕ
  pub payload : List ℕ
  pub says : SourceMessage
  pub raw : List ℕ

abbrev pub Good : Library → String → List String → Line → Type 0
Good lib name targets l =
    (protobuf_to_source lib.codecs l.payload ≡ (l.says, none))
    × (to_protobuf lib.codecs.of_broker (source_to_broker name targets l.says) ≡ some l.raw)

abbrev pub AllGood : Library → String → List String → List Line → Type 0
AllGood lib name targets [] = Unit
AllGood lib name targets (l ∷ lines) = Good lib name targets l × AllGood lib name targets lines

abbrev pub arrivals_of : List Line → List (ℕ × Event)
arrivals_of [] = []
arrivals_of (l ∷ lines) =
    (l.now, incoming (record { command = command_source_message; payload = l.payload }))
    ∷ arrivals_of lines

-- So many words OK.
abbrev pub oks : Codec Message → List Line → Writer → Writer
oks c [] w = w
oks c (l ∷ lines) w = oks c lines (send_ok c w)

pub record Done (lib : Library) (lines : List Line) (s s' : Source) : Type 0 where
  pub handed_out : s'.outbound ≡ s.outbound ++ map (λ l. l.raw) lines
  pub counted : s'.manager.in_flight ≡ s.manager.in_flight + length lines * length s.targets
  pub answered : s'.writer ≡ oks lib.wire lines s.writer
  pub one_less : s'.manager.source_wait + 1 ≡ s.manager.source_wait
  pub finished : s'.connection.state ≡ "finished"

release_lem :
    (s : Source) (n : ℕ)
    → s.manager.source_wait ≡ suc n
    → release s ≡ left (record s { manager = record (s.manager) { source_wait = n } })
unfolding release
release_lem s n e = ap (λ k. released s (done k)) e

-- The source after a message that was handed out.
published : Library → Line → Source → Source
unfolding begin_message
published lib l s =
    update_stats (λ x. remove_in_flight_message (increment_messages_outbound 1 x))
      (record (begin_message l.payload (enter_state "waiting" s)) {
        writer = send_ok lib.wire s.writer;
        manager = add_message (length s.targets) s.manager;
        outbound = s.outbound ++ l.raw ∷ [];
      })

turn-published :
    (lib : Library) (l : Line) (s : Source)
    → Good lib s.name s.targets l
    → turn lib l.now (incoming (record { command = command_source_message; payload = l.payload })) s
      ≡ continues (published lib l s)
unfolding turn take_message wrap publish begin_message published
turn-published lib l s good = rw (good.0, good.1) refl

module _ (lib : Library) (stop : ℕ) where
  loop-Done :
      (lines : List Line) (s : Source)
      → AllGood lib s.name s.targets lines
      → 1 ≤ s.manager.source_wait
      → (s' : Source) × (loop lib (arrivals_of lines ++ (stop, stopping) ∷ []) s ≡ left s')
        × Done lib lines s s'
  unfolding loop after_round turn add_message published set_connection_state
  loop-Done [] s good counted = (
    _,
    release_lem (enter_state "finished" (enter_state "waiting" s)) (s.manager.source_wait - 1)
        (omega (arith, counted)),
    record {
      handed_out = sym (append-nil s.outbound);
      counted = omega arith;
      answered = refl;
      one_less = omega (arith, counted);
      finished = refl;
    },
  )
  loop-Done (l ∷ lines) s good counted =
      let rest = loop-Done lines (published lib l s) good.1 counted in
      (
        rest.0,
        ap
              (after_round lib
                (incoming (record { command = command_source_message; payload = l.payload }))
                (loop lib (arrivals_of lines ++ (stop, stopping) ∷ [])))
              (turn-published lib l s good.0)
            ∙ rest.1,
        record {
          handed_out =
              rest.2.handed_out ∙ append_assoc s.outbound (l.raw ∷ []) (map (λ x. x.raw) lines);
          counted = rest.2.counted ∙ grind arith;
          answered = rest.2.answered;
          one_less = rest.2.one_less;
          finished = rest.2.finished;
        },
      )

  -- A source that is dialled and takes the HELLO, for any number of messages that can be parsed and
  -- marshalled for the broker, and the stop after them: the goroutine puts each on the channel of the
  -- workers, in their order, counts it in flight once for each target, answers it with OK, and leaves
  -- the wait group of the sources once.
  pub run-Done :
      (lines : List Line) (now : ℕ) (writer greeted_writer : Writer) (s : Source)
      → send_hello lib.wire writer ≡ (true, greeted_writer)
      → AllGood lib s.name s.targets lines
      → 1 ≤ s.manager.source_wait
      → (s' : Source) × (run lib now
            (connected writer)
            (arrivals_of lines ++ (stop, stopping) ∷ [])
            s
          ≡ left s')
        × Done lib lines (record s { writer = greeted_writer }) s'
  unfolding run greeted
  run-Done lines now writer greeted_writer s hello good counted =
      let rest = loop-Done lines (record s { writer = greeted_writer }) good counted in
      (rest.0, rw hello (rest.1), rest.2)
