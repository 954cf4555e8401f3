-- ===== src/Limiter/Races/Tests.antt =====
-- A round of the goroutine between whose accesses bytes are counted.
use log_shipper.Base.{ℕ, ◌/◌, ◌≡◌, refl, true, false, [], ◌∷◌}
use log_shipper.Base.Decimal.{decimal}
use log_shipper.Base.Dict.{lookup, insert}
use log_shipper.Limiter.Store.{StoreItem, is_expired, purge_items}
use log_shipper.Limiter.{
  Float64, RateLimiter, Readings, ticks, counts, new, window, window_key, increment, run, step,
  tick, flush, update_current_key, purge_expired_keys, is_average_over_limit,
}
use log_shipper.Limiter.Races.{
  resting, swapped, Runs, rests, goes_on, count, choose_key, clear_item, drop_item, keep_item, swap,
  get_item, set_item, add_synced, add_total,
}
use log_shipper.Limiter.Races.Rounds.{Runs-run}

abbrev whole : Float64
whole = record {
  Real = ℕ;
  of_int64 = λ n. n;
  div = λ a b. a / b;
  floor = λ n. n;
  to_uint64 = λ n. n;
}

abbrev second : ℕ
second = 1_000_000_000

abbrev at : Readings
at = record { key_time = 1_500_000_000; ttl_time = 1_500_000_000; purge_time = λ i. 1_500_000_000 }

-- It holds the item of a window that has expired.
abbrev before : RateLimiter
before = record (new "t" 2 second second 2) {
  items = ("t:0", record { value = 9; ttl = second }) ∷ [];
  total_stored_count = 9;
  current_count = 3;
}

abbrev after : RateLimiter
after = record before {
  items = ("t:1", record { value = 7; ttl = 3_500_000_000 }) ∷ [];
  total_stored_count = 7;
  synced_count = 7;
  current_count = 6;
  current_key = "t:1";
}

abbrev empty_item : StoreItem
empty_item = record { value = 0; ttl = 3_500_000_000 }

-- The limiter when `currentCount` was emptied, and the same counts and round done at once.
abbrev emptied : RateLimiter
emptied = record before {
  items = ("t:1", empty_item) ∷ [];
  total_stored_count = 0;
  current_count = 0;
  current_key = "t:1";
}

-- A check at this moment sees none of the seven bytes, and passes a message that it would stop a
-- moment earlier or later.
missed_test : (is_average_over_limit emptied).2 ≡ false
unfolding is_average_over_limit new
missed_test = refl

stopped_test : (is_average_over_limit (run whole before (counts 4 ∷ ticks at ∷ []))).2 ≡ true
unfolding is_average_over_limit run step tick update_current_key purge_expired_keys purge_items
    flush increment new window window_key insert lookup decimal
stopped_test = refl

abbrev up_to_swap :
    Runs whole
      (record { stage = resting; limiter = before })
      (counts 4 ∷ ticks at ∷ [])
      (record { stage = swapped 7; limiter = emptied })
unfolding new window window_key decimal insert increment is_expired
up_to_swap =
    goes_on
      (goes_on
        (goes_on (goes_on (goes_on (goes_on rests (choose_key at)) (count 4)) clear_item)
          (drop_item "t:0" (record { value = 9; ttl = second }) refl))
        (keep_item "t:1" empty_item refl))
      swap

abbrev races :
    Runs whole
      (record { stage = resting; limiter = before })
      (counts 4 ∷ ticks at ∷ counts 1 ∷ counts 5 ∷ [])
      (record { stage = resting; limiter = after })
unfolding new window window_key decimal insert lookup increment is_expired
races =
    goes_on
      (goes_on
        (goes_on
          (goes_on (goes_on (goes_on up_to_swap (count 1)) (get_item empty_item refl)) set_item)
          (count 5))
        add_synced)
      add_total

Runs-run_example : after ≡ run whole before (counts 4 ∷ ticks at ∷ counts 1 ∷ counts 5 ∷ [])
Runs-run_example = Runs-run whole races
