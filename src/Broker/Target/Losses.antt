-- ===== src/Broker/Target/Losses.antt =====
-- A fallback to a target that the broker does not have.
use log_shipper.Base.{ℕ, ◌≡◌, refl, ap, ◌∙◌, String, false, Option, none, some, List, str_eq}
use log_shipper.Base.Word.{add64}
use log_shipper.Message.{BrokerMessage, protobuf_to_broker, to_protobuf, broker_to_target}
use log_shipper.Monitoring.{Monitor, Level, info, error, set_connection_state, log_for_connection}
use log_shipper.Monitoring.Counters.{
  increment_bytes, increment_messages_inbound, increment_messages_outbound,
  increment_resent_messages, add_in_flight_message,
}
use log_shipper.Broker.Manager.{finds_target}
use log_shipper.Broker.Target.{
  Library, World, continues, RateLimitRule, limited, converted, parsed, begin, receive, log_to,
  count_resent, limited_text, missing_text, fallback_text, fallback, redirected, log_if_monitored,
  note_limited,
}
use log_shipper.Broker.Target.Rules.{first_breach, handle_rate_limiting-first_breach}

-- What a log leaves alone, the counters among it.
record Quiet (w w' : World) : Type 0 where
  manager : w'.manager ≡ w.manager
  sends : w'.sends ≡ w.sends
  stats : w'.connection.stats ≡ w.connection.stats

log_if_monitored-Quiet :
    (level : Level) (text : String) (now : ℕ) (w : World)
    → Quiet w (log_if_monitored level text now w)
unfolding log_if_monitored log_for_connection
log_if_monitored-Quiet level text now w = go w.monitor
  where
    go : (m : Option Monitor) → Quiet w (log_to level text now w m)
    go none = record { manager = refl; sends = refl; stats = refl }
    go (some m) = record { manager = refl; sends = refl; stats = refl }

-- The rule that decides is a fallback to a target that the broker does not have: the loop goes on,
-- but the message went nowhere and its count in the wait group stays, so that StopTargets waits for
-- ever. In the counters it is one more message sent and in flight.
pub receive_unknown_fallback :
    (lib : Library) (now : ℕ) (raw out fallback_raw : List ℕ) (l : BrokerMessage) (w : World)
    (rule : RateLimitRule)
    → protobuf_to_broker lib.codecs raw ≡ (l, none)
    → to_protobuf lib.codecs.of_target (broker_to_target w.name l) ≡ some out
    → first_breach w.rules ≡ some rule
    → str_eq rule.breach_behaviour.action "discard" ≡ false
    → to_protobuf lib.codecs.of_broker (redirected rule.breach_behaviour.target l)
      ≡ some fallback_raw
    → finds_target rule.breach_behaviour.target w.manager ≡ false
    → (w' : World) × (receive lib now raw w ≡ continues w')
      × (w'.manager ≡ w.manager)
      × (w'.sends ≡ w.sends)
      × (w'.connection.stats.messages_in_flight ≡ add64 w.connection.stats.messages_in_flight 1)
      × (w'.connection.stats.messages_outbound ≡ add64 w.connection.stats.messages_outbound 1)
unfolding receive parsed converted limited begin fallback note_limited increment_bytes
    increment_messages_inbound increment_messages_outbound increment_resent_messages
    add_in_flight_message set_connection_state
receive_unknown_fallback lib now raw out fallback_raw l w rule parses marshals breach not_discard
      again unknown =
    let target = rule.breach_behaviour.target in
    let w₀ = begin raw w in
    let w₁ = log_if_monitored info (fallback_text target) now w₀ in
    let w₂ = log_if_monitored error (missing_text target) now (count_resent w₁) in
    let w₃ = log_if_monitored info limited_text now w₂ in
    let q₁ = log_if_monitored-Quiet info (fallback_text target) now w₀ in
    let q₂ = log_if_monitored-Quiet error (missing_text target) now (count_resent w₁) in
    let q₃ = log_if_monitored-Quiet info limited_text now w₂ in
    let missing : finds_target target w₁.manager ≡ false =
      ap (finds_target target) q₁.manager ∙ unknown in
    let stats = q₃.stats ∙ q₂.stats in
    (
      w₃,
      rw (
        parses,
        marshals,
        handle_rate_limiting-first_breach lib now l w₀,
        breach,
        not_discard,
        again,
        missing,
      ),
      q₃.manager ∙ q₂.manager ∙ q₁.manager,
      q₃.sends ∙ q₂.sends ∙ q₁.sends,
      ap (λ s. s.messages_in_flight) stats ∙ ap (λ s. s.messages_in_flight) q₁.stats,
      ap (λ s. s.messages_outbound) stats ∙ ap (λ s. add64 s.messages_outbound 1) q₁.stats,
    )
