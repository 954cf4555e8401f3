-- ===== src/Broker/Target.antt =====
-- broker/connector.go: `TargetConnector`, one received message at a time.
pub mod Rules
pub mod Rounds
pub mod Delivery
pub mod Losses
pub mod Fates
pub mod Goroutine
mod Tests
use log_shipper.Base.{
  ℕ, zero, suc, ◌+◌, String, Bool, true, false, Option, none, some, List, [], ◌∷◌, ◌++◌, map,
  if◌then◌else◌, str_eq,
}
use Prim.Native.String.{◌++◌ as append}
use log_shipper.Base.Lists.{length}
use log_shipper.Limiter.{RateLimiter, is_average_over_limit, increment}
use log_shipper.Protocol.Input.{Fault, Reader}
use log_shipper.Protocol.{
  Message, Codec, Writer, write_new_message, wait_for_ok, send_bye, command_target_log,
}
use log_shipper.Message.{
  SourceMessage, BrokerMessage, TargetMessage, Codecs, broker_to_target, protobuf_to_broker,
  to_protobuf,
}
use log_shipper.Monitoring.{
  Connection, Monitor, Level, fatal, error, info, set_connection_state, log_for_connection,
}
use log_shipper.Monitoring.Counters.{
  Stats, increment_bytes, increment_messages_inbound, increment_messages_outbound,
  increment_dropped_messages, increment_resent_messages, add_in_flight_message,
  remove_in_flight_message,
}
use log_shipper.Broker.Manager.{
  Manager, Panic, negative_counter, nil_dereference, finds_target, complete_message,
}

-- config/config.go: `BreachBehaviour`, and broker/broker.go: `RateLimitRule`.
pub record BreachBehaviour : Type 0 where
  pub action : String
  pub target : String
  pub alert_level : String

pub record RateLimitRule : Type 0 where
  pub rate_limiter : RateLimiter
  pub breach_behaviour : BreachBehaviour

-- The libraries that the connector calls: protobuf, and the texts of errors.
pub record Library : Type 0 where
  pub wire : Codec Message
  pub codecs : Codecs
  pub describe : Fault → String
  pub describe_marshal : String

-- What the connector's goroutine sees: its own connection and rules, the shared manager, the
-- monitor, which may be nil, and the messages that it handed to other targets.
pub record World : Type 0 where
  pub name : String
  pub rules : List RateLimitRule
  pub connection : Connection
  pub monitor : Option Monitor
  pub writer : Writer
  pub reader : Reader
  pub manager : Manager
  pub sends : List (String × List ℕ)

-- How a piece of the loop ends: it goes on, the goroutine returns, or the program panics.
pub data Outcome : Type 0 where
  continues : World → Outcome
  returns : World → Outcome
  panics : Panic → Outcome

abbrev pub set_state : String → World → World
set_state s w = record w { connection = set_connection_state s w.connection }

abbrev pub with_stats : (Stats → Stats) → World → World
with_stats f w = record w { connection = record (w.connection) { stats = f w.connection.stats } }

-- `if t.Manager.Monitor != nil { ... }`.
log_to : Level → String → ℕ → World → Option Monitor → World
log_to level text now w none = w
log_to level text now w (some m) =
    let (c, m') = log_for_connection level text now w.connection m in
    record w { connection = c; monitor = some m' }

unfoldable pub log_if_monitored : Level → String → ℕ → World → World
unfolding log_to
log_if_monitored level text now w = log_to level text now w w.monitor

-- `CompleteMessage`, and what follows it.
completed : World → (World → Outcome) → Option Manager → Outcome
completed w next none = panics negative_counter
completed w next (some m) = next (record w { manager = m })

unfoldable pub completing : World → (World → Outcome) → Outcome
unfolding completed
completing w next = completed w next (complete_message w.manager)

-- The end of the goroutine on an error: the state, the log and the dropped message.
unfoldable pub die : String → ℕ → World → World
die text now w =
    with_stats (increment_dropped_messages 1) (log_if_monitored fatal text now (set_state "dead" w))

-- A rate limit is reached, and the behaviour says `discard`.
unfoldable pub discard : World → Outcome
discard w =
    completing w λ w'.
      continues (with_stats (λ s. increment_dropped_messages 1 (remove_in_flight_message s)) w')

-- `SendToTarget` of a known target puts the message on its channel.
abbrev pub hand_over : String → List ℕ → World → World
hand_over target raw w = record w { sends = w.sends ++ (target, raw) ∷ [] }

abbrev pub count_resent : World → World
count_resent w = with_stats (λ s. increment_resent_messages 1 (increment_messages_outbound 1 s)) w

abbrev pub fallback_text : String → String
fallback_text target = append "rate limit reached, falling back to target \"" (append target "\"")

abbrev pub missing_text : String → String
missing_text target = append "unable to find target: " target

-- The fallback, with the message marshalled for its new target.
forward : Library → ℕ → String → World → Option (List ℕ) → Outcome
forward lib now target w none =
    continues (log_if_monitored error lib.describe_marshal now (set_state "dead" w))
forward lib now target w (some raw) =
    let w' = log_if_monitored info (fallback_text target) now w in
    if finds_target target w'.manager
    then continues (count_resent (hand_over target raw w'))
    else continues (log_if_monitored error (missing_text target) now (count_resent w'))

abbrev pub redirected : String → BrokerMessage → BrokerMessage
redirected target m = record m { targets = target ∷ [] }

unfoldable pub fallback : Library → ℕ → String → BrokerMessage → World → Outcome
unfolding forward
fallback lib now target m w =
    forward lib now target w (to_protobuf lib.codecs.of_broker (redirected target m))

-- Whether a message passed the rules; if not, how the handling of it ended.
pub data Checked : Type 0 where
  passed : Checked
  stopped : Outcome → Checked

unfoldable pub is_over : RateLimitRule → Bool
is_over rule = (is_average_over_limit rule.rate_limiter).2

check_rules : Library → ℕ → BrokerMessage → World → List RateLimitRule → Checked
check_rules lib now m w [] = passed
check_rules lib now m w (rule ∷ rules) =
    let rest = check_rules lib now m w rules in
    if is_over rule
    then (if str_eq rule.breach_behaviour.action "discard"
        then stopped (discard w)
        else if str_eq rule.breach_behaviour.action "fallback"
        then stopped (fallback lib now rule.breach_behaviour.target m w)
        else rest)
    else rest

unfoldable pub handle_rate_limiting : Library → ℕ → BrokerMessage → World → Checked
unfolding check_rules
handle_rate_limiting lib now m w = check_rules lib now m w w.rules

-- The bytes of a delivered message count for every rule.
abbrev pub count_rule : ℕ → RateLimitRule → RateLimitRule
count_rule bytes r = record r { rate_limiter = increment bytes r.rate_limiter }

unfoldable pub count_for_rules : ℕ → World → World
count_for_rules bytes w = record w { rules = map (count_rule bytes) w.rules }

-- `err.Error()`: none where `err` is nil, which it dereferences.
error_text : Library → Option Fault → Option String
error_text lib none = none
error_text lib (some fault) = some (lib.describe fault)

log_unanswered : ℕ → World → Option String → Outcome
log_unanswered now w none = panics nil_dereference
log_unanswered now w (some text) =
    returns (with_stats (increment_dropped_messages 1) (log_if_monitored fatal text now w))

-- The end of the goroutine without an OK, with the `err` that the write of the message has set.
unanswered : Library → ℕ → Option Fault → World → Option Monitor → Outcome
unfolding error_text log_unanswered
unanswered lib now err w none = returns (with_stats (increment_dropped_messages 1) w)
unanswered lib now err w (some m) = log_unanswered now w (error_text lib err)

-- The target's answer.
answered : Library → ℕ → Option Fault → ℕ → World → Bool → Outcome
unfolding unanswered
answered lib now err bytes w true =
    completing (count_for_rules bytes w) λ w'. continues (with_stats remove_in_flight_message w')
answered lib now err bytes w false =
    completing w λ w'. unanswered lib now err (set_state "dead" w') w'.monitor

delivered : Library → ℕ → List ℕ → World → Option Fault × Writer → Outcome
unfolding answered
delivered lib now raw w (some fault, writer) =
    returns (die (lib.describe fault) now (record w { writer = writer }))
delivered lib now raw w (none, writer) =
    let (ok, reader) = wait_for_ok lib.wire w.reader in
    answered lib now none (length raw)
      (with_stats (increment_messages_outbound 1) (record w { writer = writer; reader = reader }))
      ok

unfoldable pub deliver : Library → ℕ → List ℕ → World → Outcome
unfolding delivered
deliver lib now raw w =
    delivered lib now raw w (write_new_message lib.wire w.writer command_target_log raw)

abbrev pub limited_text : String
limited_text = "log failed rate limit check, waiting for next message"

note_limited : ℕ → Outcome → Outcome
note_limited now (continues w) = continues (log_if_monitored info limited_text now w)
note_limited now (returns w) = returns w
note_limited now (panics p) = panics p

limited : Library → ℕ → List ℕ → World → Checked → Outcome
unfolding note_limited
limited lib now raw w passed = deliver lib now raw w
limited lib now raw w (stopped o) = note_limited now o

converted : Library → ℕ → BrokerMessage → World → Option (List ℕ) → Outcome
unfolding limited
converted lib now l w none = returns (die lib.describe_marshal now w)
converted lib now l w (some raw) = limited lib now raw w (handle_rate_limiting lib now l w)

parsed : Library → ℕ → World → BrokerMessage × Option Fault → Outcome
unfolding converted
parsed lib now w (l, some fault) = returns (die (lib.describe fault) now w)
parsed lib now w (l, none) =
    converted lib now l w (to_protobuf lib.codecs.of_target (broker_to_target w.name l))

-- The state and the counters at the start of a round.
unfoldable pub begin : List ℕ → World → World
begin raw w =
    with_stats
      (λ s. add_in_flight_message (increment_messages_inbound 1 (increment_bytes (length raw) s)))
      (set_state "processing" w)

-- One round of the loop of `Handle` for a message from the channel.
unfoldable pub receive : Library → ℕ → List ℕ → World → Outcome
unfolding parsed
receive lib now raw w = parsed lib now (begin raw w) (protobuf_to_broker lib.codecs raw)
