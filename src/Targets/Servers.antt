-- ===== src/Targets/Servers.antt =====
-- target/blackhole/server.go, target/stdout/server.go and target/logzio/server.go: the goroutines of
-- the three servers, and what becomes of what they read.
use log_shipper.Base.{
  ℕ, zero, suc, ◌≡◌, ◌<◌, refl, Bool, true, false, Option, none, some, List, [], ◌∷◌, str_eq,
  Bool-cases, inl, inr, ◌>>=◌, ◌||◌, if◌then◌else◌,
}
use log_shipper.Base.Lists.{length}
use log_shipper.Protocol.Input.{Fault, Reader}
use log_shipper.Protocol.{Writer, command_target_log, command_bye, send_ok, wait_for_hello}
use log_shipper.Protocol.Channel.{Sent, delivered, failed, read_to_channel, read_to_channel-returns}
use log_shipper.Protocol.Channel.Progress.{measure, is_ending}
use log_shipper.Message.{TargetMessage, protobuf_to_target}
use log_shipper.Broker.Target.{Library}
use log_shipper.Targets.{
  Session, Served, waits, returned, panicked, turn, after_turn, serve, take_message, log_message,
  consumed, defer, close, accept, greeted, swallow, print,
}
use log_shipper.Targets.Logzio.{Logz, ship}

unfoldable pub blackhole : Library → ℕ → Reader → Session (Unit {0}) → Option (Served (Unit {0}))
blackhole lib = accept lib swallow

unfoldable pub stdout :
    Library → ℕ → Reader → Session (List TargetMessage) → Option (Served (List TargetMessage))
stdout lib = accept lib print

unfoldable pub logzio : {S : Type 0} → Library → Logz S → ℕ → Reader → Session S → Option (Served S)
logzio lib logz = accept lib (ship logz)

-- The parsed message, unless it cannot be parsed.
abbrev keep : TargetMessage × Option Fault → List TargetMessage → List TargetMessage
keep (t, some fault) rest = rest
keep (t, none) rest = t ∷ rest

abbrev oks : Library → ℕ → Writer → Writer
oks lib zero w = w
oks lib (suc n) w = oks lib n (send_ok lib.wire w)

-- The log messages up to a BYE or an error, without those that cannot be parsed.
abbrev taken : Library → List Sent → List TargetMessage
taken lib [] = []
taken lib (failed fault ∷ events) = []
taken lib (delivered m ∷ events) =
    let rest = taken lib events in
    if str_eq m.command command_target_log
    then keep (protobuf_to_target lib.codecs m.payload) rest
    else if str_eq m.command command_bye
    then []
    else rest

-- Whether there is a BYE or an error.
abbrev is_over : List Sent → Bool
is_over [] = false
is_over (failed fault ∷ events) = true
is_over (delivered m ∷ events) =
    let rest = is_over events in
    if str_eq m.command command_target_log then rest else str_eq m.command command_bye || rest

module _ {S : Type 0} (lib : Library) (consume : TargetMessage → S → Option S) where
  -- The handling of all of these messages; `none` if that of one of them fails.
  abbrev consume_all : List TargetMessage → S → Option S
  consume_all [] s = some s
  consume_all (t ∷ ts) s = consume t s >>= consume_all ts

  -- A session that has answered so many messages, and where their handling has led to.
  abbrev end_of : Bool → ℕ → Session S → Option S → Served S
  end_of over n s none = panicked
  end_of false n s (some sink) =
      waits (record { conn = oks lib n s.conn; closed = s.closed; sink = sink })
  end_of true n s (some sink) =
      returned (record { conn = oks lib n s.conn; closed = true; sink = sink })

  -- What is to become of a session at these events.
  abbrev pub outcome : List Sent → Session S → Served S
  outcome events s =
      let ts = taken lib events in end_of (is_over events) (length ts) s (consume_all ts s.sink)

  end_of-suc :
      (over : Bool) (n : ℕ) (s : Session S) (sink : S) (last : Option S)
      → end_of over n (record s { conn = send_ok lib.wire s.conn; sink = sink }) last
        ≡ end_of over (suc n) s last
  end_of-suc over n s sink none = refl
  end_of-suc false n s sink (some last) = refl
  end_of-suc true n s sink (some last) = refl

  logged :
      (over : Bool) (next : Session S → Served S) (ts : List TargetMessage) (s : Session S)
      (parsed : TargetMessage × Option Fault)
      → ((x : Session S) → next x ≡ end_of over (length ts) x (consume_all ts x.sink))
      → after_turn lib consume next (log_message lib consume s parsed)
        ≡ end_of over (length (keep parsed ts)) s (consume_all (keep parsed ts) s.sink)
  unfolding after_turn log_message consumed
  logged over next ts s (t, some fault) rest = rest s
  logged over next ts s (t, none) rest = shipped (consume t s.sink)
    where
      shipped :
          (o : Option S)
          → after_turn lib consume next (consumed lib consume s o)
            ≡ end_of over (suc (length ts)) s (o >>= consume_all ts)
      shipped none = refl
      shipped (some sink) =
          rw (rest (record s { conn = send_ok lib.wire s.conn; sink = sink }))
            (end_of-suc over (length ts) s sink (consume_all ts sink))

  serve-outcome :
      (events : List Sent) (s : Session S) → serve lib consume events s ≡ outcome events s
  unfolding serve turn take_message after_turn defer close
  serve-outcome [] s = refl
  serve-outcome (failed fault ∷ events) s = refl
  serve-outcome (delivered m ∷ events) s = elim (Bool-cases (str_eq m.command command_target_log)) [
    | inl log ↦ rw log (
        logged (is_over events) (serve lib consume events) (taken lib events) s
          (protobuf_to_target lib.codecs m.payload) (serve-outcome events))
    | inr other ↦ rw other (elim (Bool-cases (str_eq m.command command_bye)) [
      | inl bye ↦ rw bye refl
      | inr word ↦ rw word (serve-outcome events s)
    ])
  ]

  after_hello :
      (fuel : ℕ) (s : Session S) (got : Bool × Reader) (events : List Sent)
      → read_to_channel lib.wire fuel got.1 ≡ some events
      → greeted lib consume fuel s got ≡ some (if got.0 then outcome events s else panicked)
  unfolding greeted
  after_hello fuel s (false, r) events e = refl
  after_hello fuel s (true, r) events e = rw e (rw (serve-outcome events s) refl)

  -- Whatever a server does with a message, let the reads of its connection come to an end of the
  -- stream, and let the fuel be above the bytes and arrivals that are left after the first message. Then `ReadToChannel` ends,
  -- and the server panics if that first message is no HELLO. Else it takes in the log messages that
  -- it can parse, up to a BYE or an error of reading. If the handling of one of them fails, it
  -- panics. If not, it has done it for each, in their order, and has answered each with one OK, and
  -- nothing else with anything; and at the BYE or the error it has closed the connection, sent no
  -- BYE and returned, while without them it waits for more, also at the end of the stream.
  pub accept_lem :
      (fuel : ℕ) (r : Reader) (s : Session S)
      → is_ending (wait_for_hello lib.wire r).1.arrivals ≡ true
      → measure (wait_for_hello lib.wire r).1 < fuel
      → (events : List Sent) × (read_to_channel lib.wire fuel (wait_for_hello lib.wire r).1
          ≡ some events)
        × (accept lib consume fuel r s
            ≡ some (if (wait_for_hello lib.wire r).0 then outcome events s else panicked))
  unfolding accept
  accept_lem fuel r s p h =
      let read = read_to_channel-returns lib.wire fuel (wait_for_hello lib.wire r).1 p h in
      (read.0, read.1, after_hello fuel s (wait_for_hello lib.wire r) read.0 read.1)
