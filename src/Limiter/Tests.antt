-- ===== src/Limiter/Tests.antt =====
-- The theorems on the rate limiter at concrete limiters, and runs of it.
use log_shipper.Base.{
  ℕ, ◌+◌, ◌*◌, ◌/◌, ◌%◌, ◌≤◌, ◌<◌, ◌≡◌, ◌↔◌, refl, true, false, some, List, [], ◌∷◌, arith,
}
use log_shipper.Base.Word.{u64_mod}
use log_shipper.Base.Decimal.{decimal}
use log_shipper.Base.Dict.{lookup, insert}
use log_shipper.Limiter.{
  Float64, RateLimiter, Readings, Call, ticks, counts, new, window, window_key, update_current_key,
  purge_expired_keys, flush, stop, increment, is_over_limit, is_average_over_limit, init, tick,
  step, run,
}
use log_shipper.Limiter.Store.{purge_items, sum_values, value_at}
use log_shipper.Limiter.Accounting.{Drift, stale, excess, tick_stores, run-Drift, stop-Drift}
use log_shipper.Limiter.Rates.{
  is_over_limit_lem, is_average_over_limit_iff, increments, refused_never_forgets,
}
use log_shipper.Limiter.Windows.{run_balanced}

-- Whole numbers in the place of doubles.
abbrev whole : Float64
whole = record {
  Real = ℕ;
  of_int64 = λ n. n;
  div = λ a b. a / b;
  floor = λ n. n;
  to_uint64 = λ n. n;
}

abbrev second : ℕ
second = 1_000_000_000

-- Readings of the clock that all fall together.
abbrev at : ℕ → Readings
at t = record { key_time = t; ttl_time = t; purge_time = λ i. t }

abbrev fresh : RateLimiter
fresh = new "t" 5 second second 2

abbrev history : List Call
history = counts 7 ∷ ticks (at 1_500_000_000) ∷ counts 4 ∷ ticks (at 2_500_000_000) ∷ []

-- Two rounds store 7 and 4 bytes; the second finds the empty item of Init expired.
run_test :
    (run whole (init whole 0 0 fresh).0 history).items
    ≡ ("t:1", record { value = 7; ttl = 3_500_000_000 })
      ∷ ("t:2", record { value = 4; ttl = 4_500_000_000 })
      ∷ []
unfolding run step init tick update_current_key purge_expired_keys flush increment new window
    window_key purge_items insert lookup decimal
run_test = refl

run_balanced_example :
    ((init whole 0 0 fresh).1 ≡ true)
    × ((run whole (init whole 0 0 fresh).0 history).total_stored_count
        ≡ sum_values (run whole (init whole 0 0 fresh).0 history).items % u64_mod)
unfolding window
run_balanced_example =
    run_balanced whole "t" 5 second second 2 0 0 history (omega arith) (omega arith)

abbrev busy : RateLimiter
busy = record fresh {
  current_count = 9;
  current_key = "t:0";
  items = ("t:0", record { value = 3; ttl = 10 }) ∷ [];
  total_stored_count = 3;
}

busy-Drift : Drift 0 busy
unfolding new
busy-Drift = record { fits = omega arith; counted = omega arith; total = refl }

tick_stores_example :
    let r' = tick whole (at 500) busy in
    (r'.current_key ≡ window_key "t" (window whole second 500))
    × (lookup r'.current_key r'.items ≡ some (record { value = 9; ttl = 500 + 2 * second }))
    × (r'.synced_count ≡ 9)
    × (r'.current_count ≡ 0)
unfolding new
tick_stores_example = tick_stores whole (at 500) busy (omega arith)

-- A round in the window of the last one leaves its 3 bytes unaccounted.
run-Drift_example :
    Drift (0 + excess whole busy (ticks (at 500) ∷ [])) (run whole busy (ticks (at 500) ∷ []))
run-Drift_example = run-Drift whole (ticks (at 500) ∷ []) 0 busy busy-Drift

excess_test : excess whole busy (ticks (at 500) ∷ []) ≡ 3
unfolding excess stale window window_key lookup decimal new
excess_test = refl

abbrev stopped : RateLimiter
stopped = record busy {
  stop_closed = true;
  current_count = 0;
  items = ("t:0", record { value = 12; ttl = 10 }) ∷ [];
  synced_count = 12;
  total_stored_count = 15;
}

-- Stop counts the 3 bytes that were stored a second time.
stop-Drift_example : Drift (0 + value_at (lookup busy.current_key busy.items)) stopped
unfolding stop flush lookup insert new
stop-Drift_example = stop-Drift busy-Drift refl

is_over_limit_lem_example :
    (((is_over_limit busy).1 ≡ true) ↔ (5 < 9)) × ((5 + (is_over_limit busy).0) % u64_mod ≡ 9)
unfolding new
is_over_limit_lem_example = is_over_limit_lem busy (omega arith) (omega arith)

is_average_over_limit_iff_example : ((is_average_over_limit busy).2 ≡ true) ↔ (6 * 2 ≤ 12)
unfolding new
is_average_over_limit_iff_example = is_average_over_limit_iff busy (omega arith)

refused_never_forgets_example :
    ((init whole 0 0 (new "t" 5 0 0 2)).1 ≡ false)
    × (((is_average_over_limit (increments (init whole 0 0 (new "t" 5 0 0 2)).0 (4 ∷ 2 ∷ []))).2
          ≡ true)
        ↔ (5 < 6))
refused_never_forgets_example =
    refused_never_forgets whole "t" 5 0 0 2 0 0 (4 ∷ 2 ∷ []) (omega arith) (omega arith)
