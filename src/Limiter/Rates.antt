-- ===== src/Limiter/Rates.antt =====
-- What `IsOverLimit` and `IsAverageOverLimit` answer.
use log_shipper.Base.{
  ℕ, suc, ◌+◌, ◌*◌, ◌/◌, ◌%◌, ◌≤◌, ◌<◌, ◌≡◌, refl, ◌↔◌, String, true, false, List, [], ◌∷◌, arith,
  lt→ltb,
}
use log_shipper.Base.Lists.{length}
use log_shipper.Base.Word.{u64_mod}
use log_shipper.Limiter.{
  Float64, RateLimiter, new, init, increment, is_over_limit, is_average_over_limit, millisecond,
}

-- The flag says whether more bytes were counted than the limit; the number is by how much, and
-- wraps round where the limit was not reached.
pub is_over_limit_lem :
    (r : RateLimiter)
    → r.limit < u64_mod
    → r.current_count < u64_mod
    → (((is_over_limit r).1 ≡ true) ↔ (r.limit < r.current_count))
      × ((r.limit + (is_over_limit r).0) % u64_mod ≡ r.current_count)
unfolding is_over_limit
is_over_limit_lem r hl hc = ground arith

lt_div : (l a k : ℕ) → (l < a / suc k) ↔ (suc l * suc k ≤ a)
lt_div l a k = (λ h. grind arith, λ h. grind arith)

-- As long as the sum of the counters does not overflow, the average is over the limit exactly when
-- the bytes in the store and the bytes not yet stored reach the limit and one more for each stored
-- item and one more item.
pub is_average_over_limit_iff :
    (r : RateLimiter)
    → r.total_stored_count + r.current_count < u64_mod
    → ((is_average_over_limit r).2 ≡ true)
      ↔ (suc r.limit * suc (length r.items) ≤ r.total_stored_count + r.current_count)
unfolding is_average_over_limit
is_average_over_limit_iff r h =
    ground (arith, lt_div r.limit (r.total_stored_count + r.current_count) (length r.items))

-- The bytes that calls of Increment add.
abbrev pub sum : List ℕ → ℕ
sum [] = 0
sum (n ∷ ns) = n + sum ns

unfoldable pub increments : RateLimiter → List ℕ → RateLimiter
increments r [] = r
increments r (n ∷ ns) = increments (increment n r) ns

increments_lem :
    (r : RateLimiter) (ns : List ℕ)
    → r.current_count + sum ns < u64_mod
    → increments r ns ≡ record r { current_count = r.current_count + sum ns }
unfolding increments increment
increments_lem r [] h = ground arith
increments_lem r (n ∷ ns) h = ground (arith, increments_lem (increment n r) ns (omega arith))

-- A limiter whose interval is under a millisecond is not started, and never forgets: it is over its
-- limit from the time that all the bytes it ever counted pass the limit.
pub refused_never_forgets :
    (fl : Float64) (base : String) (limit interval flush_interval multiplier now later : ℕ)
    (ns : List ℕ)
    → interval < millisecond
    → sum ns < u64_mod
    → let (r, started) = init fl now later (new base limit interval flush_interval multiplier) in
      (started ≡ false) × (((is_average_over_limit (increments r ns)).2 ≡ true) ↔ (limit < sum ns))
unfolding init new is_average_over_limit
refused_never_forgets fl base limit interval flush_interval multiplier now later ns h k =
    rw
      (
        lt→ltb interval millisecond h,
        increments_lem (new base limit interval flush_interval multiplier) ns (omega arith),
      )
      (refl, ground arith)
