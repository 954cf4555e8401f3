-- ===== src/Monitoring/Tests.antt =====
-- The counters at a concrete history.
use log_shipper.Base.{◌+◌, ◌^◌, ◌≡◌, refl, arith, [], ◌∷◌}
use log_shipper.Monitoring.Counters.{
  float64, new_stats, add_in_flight_message, remove_in_flight_message,
}
use log_shipper.Monitoring.Metrics.{
  start, finish, dropped, apply, apply_all, Agrees, new_stats-Agrees,
}

new_stats-Agrees_example : Agrees (apply_all (start ∷ dropped 1 ∷ finish ∷ []) new_stats)
new_stats-Agrees_example =
    new_stats-Agrees (start ∷ dropped 1 ∷ finish ∷ []) (tt, (omega arith, (tt, tt)))

apply_all_test : (apply_all (start ∷ start ∷ finish ∷ []) new_stats).messages_in_flight ≡ 1
unfolding apply_all apply add_in_flight_message remove_in_flight_message new_stats
apply_all_test = refl

-- Doubles above 2 ^ 53 are even.
float64_test : float64 (2 ^ 53 + 1) ≡ 2 ^ 53
unfolding float64
float64_test = refl

float64_up_test : float64 (2 ^ 53 + 3) ≡ 2 ^ 53 + 4
unfolding float64
float64_up_test = refl
