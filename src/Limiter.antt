-- ===== src/Limiter.antt =====
-- limiter/limiter.go: the store of counted bytes and the rate limiter over it.
-- A `uint64` is a number below 2 ^ 64; times and durations are nanoseconds, not negative, and their
-- sums do not overflow. Each reading of the clock is an argument. `current_key` is "" before Init.
pub mod Store
pub mod Accounting
pub mod Rates
pub mod Windows
pub mod Races
mod Tests
use Prim.Native.String.{String, ◌++◌}
use log_shipper.Base.{
  ℕ, zero, suc, ◌+◌, ◌*◌, ◌/◌, Bool, true, false, Option, none, some, List, [], ◌∷◌, ltb,
  if◌then◌else◌,
}
use log_shipper.Base.Lists.{length}
use log_shipper.Base.Word.{add64, sub64}
use log_shipper.Base.Decimal.{decimal}
use log_shipper.Base.Dict.{Dict, lookup, insert}
use Store.{StoreItem, purge_items}

-- IEEE doubles, as far as the window of a point in time is computed with them.
pub record Float64 : Type 1 where
  pub Real : Type 0
  pub of_int64 : ℕ → Real
  pub div : Real → Real → Real
  pub floor : Real → Real
  pub to_uint64 : Real → ℕ

pub record RateLimiter : Type 0 where
  pub limit : ℕ
  pub base_key : String
  pub interval : ℕ
  pub flush_interval : ℕ
  pub store_multiplier : ℕ
  pub total_stored_count : ℕ
  pub synced_count : ℕ
  pub current_count : ℕ
  pub current_key : String
  pub items : Dict StoreItem
  pub ticking : Bool  -- the goroutine of Init runs
  pub stop_closed : Bool  -- `stopTicker` is closed

unfoldable pub new : String → ℕ → ℕ → ℕ → ℕ → RateLimiter
new base_key limit interval flush_interval store_multiplier = record {
  limit = limit;
  base_key = base_key;
  interval = interval;
  flush_interval = flush_interval;
  store_multiplier = store_multiplier;
  total_stored_count = 0;
  synced_count = 0;
  current_count = 0;
  current_key = "";
  items = [];
  ticking = false;
  stop_closed = false;
}

-- The number of the interval that `now` lies in, by floating-point division.
unfoldable pub window : Float64 → ℕ → ℕ → ℕ
window fl ns now = fl.to_uint64 (fl.floor (fl.div (fl.of_int64 now) (fl.of_int64 ns)))

unfoldable pub window_key : String → ℕ → String
window_key base w = base ++ (":" ++ decimal w)

-- The two readings of the clock in `updateCurrentKey`, and one for each item that is purged.
pub record Readings : Type 0 where
  pub key_time : ℕ
  pub ttl_time : ℕ
  pub purge_time : ℕ → ℕ

unfoldable pub update_current_key : Float64 → ℕ → ℕ → RateLimiter → RateLimiter
update_current_key fl key_time ttl_time r =
    let key = window_key r.base_key (window fl r.interval key_time) in
    record r {
      current_key = key;
      items =
          insert key (record { value = 0; ttl = ttl_time + r.store_multiplier * r.flush_interval })
            r.items;
    }

unfoldable pub purge_expired_keys : (ℕ → ℕ) → RateLimiter → RateLimiter
purge_expired_keys clock r =
    let (kept, total) = purge_items r.current_key clock r.items r.total_stored_count in
    record r { items = kept; total_stored_count = total }

store_flushed : RateLimiter → ℕ → Option StoreItem → RateLimiter
store_flushed r flush_count none = r
store_flushed r flush_count (some item) =
    let value = add64 item.value flush_count in
    record r {
      items = insert r.current_key (record item { value = value }) r.items;
      synced_count = add64 r.synced_count value;
      total_stored_count = add64 r.total_stored_count value;
    }

unfoldable pub flush : RateLimiter → RateLimiter
unfolding store_flushed
flush r =
    store_flushed (record r { current_count = 0 }) r.current_count (lookup r.current_key r.items)

-- `none` is the panic of closing a closed channel.
unfoldable pub stop : RateLimiter → Option RateLimiter
stop r =
    if r.stop_closed then none else some (flush (record r { stop_closed = true; ticking = false }))

unfoldable pub increment : ℕ → RateLimiter → RateLimiter
increment delta r = record r { current_count = add64 r.current_count delta }

unfoldable pub is_over_limit : RateLimiter → ℕ × Bool
is_over_limit r =
    if ltb r.limit r.current_count
    then (sub64 r.current_count r.limit, true)
    else (sub64 r.current_count r.limit, false)

unfoldable pub get_current : RateLimiter → ℕ
get_current r = r.current_count

unfoldable pub is_average_over_limit : RateLimiter → ℕ × ℕ × Bool
is_average_over_limit r =
    let mean = add64 r.total_stored_count r.current_count / (length r.items + 1) in
    if ltb r.limit mean then (sub64 mean r.limit, mean, true) else (sub64 mean r.limit, mean, false)

abbrev pub millisecond : ℕ
millisecond = 1_000_000

-- `false` is the error about the minimum interval. The flush interval is not 0, at which
-- `time.NewTicker` panics: cmd/run.go, the only caller, passes the same time for it as for the
-- interval, which is at least a millisecond here.
unfoldable pub init : Float64 → ℕ → ℕ → RateLimiter → RateLimiter × Bool
init fl key_time ttl_time r =
    if ltb r.interval millisecond
    then (r, false)
    else (record (update_current_key fl key_time ttl_time r) { ticking = true }, true)

-- One round of the goroutine that Init starts.
unfoldable pub tick : Float64 → Readings → RateLimiter → RateLimiter
tick fl t r =
    flush (purge_expired_keys t.purge_time (update_current_key fl t.key_time t.ttl_time r))

-- What happens to a limiter that ticks: rounds of its goroutine, and bytes counted between them.
pub data Call : Type 0 where
  ticks : Readings → Call
  counts : ℕ → Call

unfoldable pub step : Float64 → RateLimiter → Call → RateLimiter
step fl r (ticks t) = tick fl t r
step fl r (counts n) = increment n r

unfoldable pub run : Float64 → RateLimiter → List Call → RateLimiter
run fl r [] = r
run fl r (c ∷ cs) = run fl (step fl r c) cs
