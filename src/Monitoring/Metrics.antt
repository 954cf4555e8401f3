-- ===== src/Monitoring/Metrics.antt =====
-- The counters agree with the metrics.
use log_shipper.Base.{ℕ, ◌+◌, ◌%◌, ◌^◌, ◌<◌, ◌≡◌, List, [], ◌∷◌, arith}
use log_shipper.Base.Lists.{All}
use log_shipper.Base.Word.{u64_mod}
use log_shipper.Monitoring.Counters.{
  Stats, Metric, MetricCall, added, in_flight_inc, in_flight_dec, float64-exact, new_stats,
  increment_bytes, increment_messages_inbound, increment_messages_outbound,
  increment_dropped_messages, increment_resent_messages, add_in_flight_message,
  remove_in_flight_message,
}

-- What each counter of Prometheus stands at.
abbrev pub Totals : Type 0
Totals = record { bytes : ℕ; inbound : ℕ; outbound : ℕ; dropped : ℕ; resent : ℕ; up : ℕ; down : ℕ }

abbrev pub count_call : MetricCall → Totals → Totals
count_call (added Metric.bytes_processed n) t = record t { bytes = t.bytes + n }
count_call (added Metric.messages_inbound n) t = record t { inbound = t.inbound + n }
count_call (added Metric.messages_outbound n) t = record t { outbound = t.outbound + n }
count_call (added Metric.dropped_messages n) t = record t { dropped = t.dropped + n }
count_call (added Metric.resent_messages n) t = record t { resent = t.resent + n }
count_call in_flight_inc t = record t { up = t.up + 1 }
count_call in_flight_dec t = record t { down = t.down + 1 }

abbrev pub totals : List MetricCall → Totals
totals [] = record {
  bytes = 0;
  inbound = 0;
  outbound = 0;
  dropped = 0;
  resent = 0;
  up = 0;
  down = 0;
}
totals (c ∷ cs) = count_call c (totals cs)

-- Each counter is its metric, modulo 2 ^ 64.
pub record Agrees (s : Stats) : Type 0 where
  pub bytes : s.bytes_processed ≡ (totals s.calls).bytes % u64_mod
  pub inbound : s.messages_inbound ≡ (totals s.calls).inbound % u64_mod
  pub outbound : s.messages_outbound ≡ (totals s.calls).outbound % u64_mod
  pub dropped : s.dropped_messages ≡ (totals s.calls).dropped % u64_mod
  pub resent : s.resent_messages ≡ (totals s.calls).resent % u64_mod
  pub in_flight :
      (s.messages_in_flight + (totals s.calls).down) % u64_mod ≡ (totals s.calls).up % u64_mod

-- The calls of the program on one set of counters.
pub data Op : Type 0 where
  bytes inbound outbound dropped resent : ℕ → Op
  start finish : Op

unfoldable pub apply : Op → Stats → Stats
apply (bytes n) s = increment_bytes n s
apply (inbound n) s = increment_messages_inbound n s
apply (outbound n) s = increment_messages_outbound n s
apply (dropped n) s = increment_dropped_messages n s
apply (resent n) s = increment_resent_messages n s
apply start s = add_in_flight_message s
apply finish s = remove_in_flight_message s

unfoldable pub apply_all : List Op → Stats → Stats
apply_all [] s = s
apply_all (o ∷ os) s = apply_all os (apply o s)

-- The increment of a call is below 2 ^ 53, where each whole number is a double.
abbrev pub IsExact : Op → Type 0
IsExact (bytes n) = n < 2 ^ 53
IsExact (inbound n) = n < 2 ^ 53
IsExact (outbound n) = n < 2 ^ 53
IsExact (dropped n) = n < 2 ^ 53
IsExact (resent n) = n < 2 ^ 53
IsExact start = Unit
IsExact finish = Unit

apply-Agrees : (o : Op) {s : Stats} → IsExact o → Agrees s → Agrees (apply o s)
unfolding apply increment_bytes increment_messages_inbound increment_messages_outbound
    increment_dropped_messages increment_resent_messages add_in_flight_message
    remove_in_flight_message
apply-Agrees (bytes n) h a = omega (arith, float64-exact n h)
apply-Agrees (inbound n) h a = omega (arith, float64-exact n h)
apply-Agrees (outbound n) h a = omega (arith, float64-exact n h)
apply-Agrees (dropped n) h a = omega (arith, float64-exact n h)
apply-Agrees (resent n) h a = omega (arith, float64-exact n h)
apply-Agrees start h a = omega arith
apply-Agrees finish h a = omega arith

apply_all-Agrees : (os : List Op) {s : Stats} → All IsExact os → Agrees s → Agrees (apply_all os s)
unfolding apply_all
apply_all-Agrees [] h a = a
apply_all-Agrees (o ∷ os) h a = apply_all-Agrees os h.1 (apply-Agrees o h.0 a)

-- After any operations with increments below 2 ^ 53 on new counters, each counter is the sum of what
-- its Prometheus metric was told, as doubles, modulo 2 ^ 64; for the messages in flight, the
-- increases less the decreases.
pub new_stats-Agrees : (os : List Op) → All IsExact os → Agrees (apply_all os new_stats)
unfolding new_stats
new_stats-Agrees os h = apply_all-Agrees os h (omega arith)
