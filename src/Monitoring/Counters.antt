-- ===== src/Monitoring/Counters.antt =====
-- monitoring/stats.go: six counters of 64 bits, each beside a metric of the Prometheus library.
-- The library is seen as the list of the calls that it gets, newest first.
use log_shipper.Base.{
  ℕ, zero, suc, ◌+◌, ◌*◌, ◌/◌, ◌%◌, ◌^◌, ◌<◌, ◌≡◌, refl, arith, lt→ltb, List, [], ◌∷◌, ltb,
  if◌then◌else◌,
}
use log_shipper.Base.Word.{add64, not64}

-- The metrics, and the calls `Add`, `Inc` and `Dec` of them.
pub data Metric : Type 0 where
  bytes_processed messages_inbound messages_outbound dropped_messages resent_messages : Metric

pub data MetricCall : Type 0 where
  added : Metric → ℕ → MetricCall
  in_flight_inc in_flight_dec : MetricCall

pub record Stats : Type 0 where
  pub bytes_processed : ℕ
  pub messages_inbound : ℕ
  pub messages_outbound : ℕ
  pub messages_in_flight : ℕ
  pub dropped_messages : ℕ
  pub resent_messages : ℕ
  pub calls : List MetricCall

-- The unit of the last place of a double: a power of 2, so that 53 bits are left above it.
last_place : ℕ → ℕ → ℕ → ℕ
last_place zero unit n = unit
last_place (suc more) unit n =
    let next = last_place more (2 * unit) n in if ltb (n / unit) (2 ^ 53) then unit else next

-- To the nearest multiple of the unit, and half way to the even one.
round_to : ℕ → ℕ → ℕ
round_to unit n =
    let below = n / unit in
    let twice = 2 * (n % unit) in
    if ltb twice unit
    then below * unit
    else if ltb unit twice
    then (below + 1) * unit
    else (below + below % 2) * unit

-- Go's `float64(n)` of a uint64, as the whole number that the double is.
unfoldable pub float64 : ℕ → ℕ
unfolding last_place round_to
float64 n = round_to (last_place 11 1 n) n

last_place-small : (more n : ℕ) → n < 2 ^ 53 → last_place more 1 n ≡ 1
unfolding last_place
last_place-small zero n h = refl
last_place-small (suc more) n h = rw (lt→ltb (n / 1) (2 ^ 53) (omega (arith, h))) refl

round_to-one : (n : ℕ) → round_to 1 n ≡ n
unfolding round_to
round_to-one n = rw (lt→ltb (2 * (n % 1)) 1 (omega arith)) (omega arith)

-- Below 2 ^ 53 each whole number is a double.
pub float64-exact : (n : ℕ) → n < 2 ^ 53 → float64 n ≡ n
unfolding float64
float64-exact n h = rw (last_place-small 11 n h) (round_to-one n)

unfoldable pub new_stats : Stats
new_stats = record {
  bytes_processed = 0;
  messages_inbound = 0;
  messages_outbound = 0;
  messages_in_flight = 0;
  dropped_messages = 0;
  resent_messages = 0;
  calls = [];
}

unfoldable pub increment_bytes : ℕ → Stats → Stats
increment_bytes delta s = record s {
  bytes_processed = add64 s.bytes_processed delta;
  calls = added Metric.bytes_processed (float64 delta) ∷ s.calls;
}

unfoldable pub increment_messages_inbound : ℕ → Stats → Stats
increment_messages_inbound delta s = record s {
  messages_inbound = add64 s.messages_inbound delta;
  calls = added Metric.messages_inbound (float64 delta) ∷ s.calls;
}

unfoldable pub increment_messages_outbound : ℕ → Stats → Stats
increment_messages_outbound delta s = record s {
  messages_outbound = add64 s.messages_outbound delta;
  calls = added Metric.messages_outbound (float64 delta) ∷ s.calls;
}

unfoldable pub increment_dropped_messages : ℕ → Stats → Stats
increment_dropped_messages delta s = record s {
  dropped_messages = add64 s.dropped_messages delta;
  calls = added Metric.dropped_messages (float64 delta) ∷ s.calls;
}

unfoldable pub increment_resent_messages : ℕ → Stats → Stats
increment_resent_messages delta s = record s {
  resent_messages = add64 s.resent_messages delta;
  calls = added Metric.resent_messages (float64 delta) ∷ s.calls;
}

unfoldable pub add_in_flight_message : Stats → Stats
add_in_flight_message s = record s {
  messages_in_flight = add64 s.messages_in_flight 1;
  calls = in_flight_inc ∷ s.calls;
}

unfoldable pub remove_in_flight_message : Stats → Stats
remove_in_flight_message s = record s {
  messages_in_flight = add64 s.messages_in_flight (not64 0);
  calls = in_flight_dec ∷ s.calls;
}
