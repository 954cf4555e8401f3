-- ===== src/Limiter/Windows.antt =====
-- Rounds in ever later windows: no item is written over, so nothing stays unaccounted.
use mathlib.Core.Path.{subst}
use text.Mathlib.TextLemmas.{append_cancel_left}
use log_shipper.Base.{
  ℕ, suc, ◌+◌, ◌*◌, ltb_of_le, ◌%◌, ◌≤◌, ◌<◌, ◌≡◌, refl, ◌∙◌, String, true, List, [], ◌∷◌, arith,
  none, eq_iff,
}
use log_shipper.Base.Word.{u64_mod, add64, sub64, not64}
use log_shipper.Base.Decimal.{decimal_inj}
use log_shipper.Base.Dict.{Dict, lookup, insert, lookup-insert}
use log_shipper.Limiter.{
  Float64, RateLimiter, Readings, Call, ticks, counts, window, window_key, update_current_key,
  purge_expired_keys, increment, tick, step, run, new, init, millisecond,
}
use log_shipper.Limiter.Store.{StoreItem, purge_items, sum_values}
use log_shipper.Limiter.Accounting.{Drift, stale, excess, run-Drift, tick_lem}

-- Two windows of one limiter have different keys.
pub window_key_inj : (base : String) (v w : ℕ) → window_key base v ≡ window_key base w → v ≡ w
unfolding window_key
window_key_inj base v w e =
    decimal_inj v w (append_cancel_left ":" _ _ (append_cancel_left base _ _ e))

-- The store holds no item of window `n` or a later one.
abbrev pub IsBefore : ℕ → RateLimiter → Type 0
IsBefore n r = (w : ℕ) → n ≤ w → lookup (window_key r.base_key w) r.items ≡ none

lookup-purge_items-none :
    (key current : String) (clock : ℕ → ℕ) (m : Dict StoreItem) (total : ℕ)
    → lookup key m ≡ none
    → lookup key (purge_items current clock m total).0 ≡ none
unfolding purge_items lookup
lookup-purge_items-none key current clock [] total h = refl
lookup-purge_items-none key current clock ((k, x) ∷ m) total h = ground (
  arith,
  lookup-purge_items-none key current (λ i. clock (suc i)) m total,
  lookup-purge_items-none key current (λ i. clock (suc i)) m
      (add64 total (not64 (sub64 x.value 1))),
)

-- A write of one key leaves the later windows empty.
lookup-insert_later :
    (base : String) (v w : ℕ) (item : StoreItem) (m : Dict StoreItem)
    → v < w
    → lookup (window_key base w) m ≡ none
    → lookup (window_key base w) (insert (window_key base v) item m) ≡ none
lookup-insert_later base v w item m h e =
    rw lookup-insert
      (ground (arith, eq_iff (window_key base v) (window_key base w), window_key_inj base v w))

tick-IsBefore :
    (fl : Float64) (t : Readings) (n : ℕ) (r : RateLimiter)
    → n ≤ window fl r.interval t.key_time
    → IsBefore n r
    → IsBefore (suc (window fl r.interval t.key_time)) (tick fl t r)
unfolding purge_expired_keys update_current_key
tick-IsBefore fl t n r le before w h =
    let v = window fl r.interval t.key_time in
    let key = window_key r.base_key v in
    rw tick_lem (
      lookup-insert_later r.base_key v w _ _ h (
        lookup-purge_items-none (window_key r.base_key w) key t.purge_time _ _
          (lookup-insert_later r.base_key v w _ r.items h (before w (omega arith)))))

tick-interval :
    (fl : Float64) (t : Readings) (r : RateLimiter) → (tick fl t r).interval ≡ r.interval
unfolding purge_expired_keys update_current_key
tick-interval fl t r = rw tick_lem

-- Each round of the history falls into a window from `n` on, and into a later one than the last.
abbrev pub Increasing : Float64 → ℕ → ℕ → List Call → Type 0
Increasing fl interval n [] = Unit
Increasing fl interval n (ticks t ∷ cs) =
    (n ≤ window fl interval t.key_time)
    × Increasing fl interval (suc (window fl interval t.key_time)) cs
Increasing fl interval n (counts d ∷ cs) = Increasing fl interval n cs

excess_zero :
    (fl : Float64) (interval n : ℕ) (r : RateLimiter) (cs : List Call)
    → r.interval ≡ interval
    → IsBefore n r
    → Increasing fl interval n cs
    → excess fl r cs ≡ 0
unfolding excess step stale increment
excess_zero fl interval n r [] e before up = refl
excess_zero fl interval n r (counts d ∷ cs) e before up =
    excess_zero fl interval n (increment d r) cs e before up
excess_zero fl interval n r (ticks t ∷ cs) e before up =
    let v = window fl interval t.key_time in
    let later =
      subst (λ i. IsBefore (suc (window fl i t.key_time)) (tick fl t r)) e
        (tick-IsBefore fl t n r (rw e up.0) before) in
    let rest =
      excess_zero fl interval (suc v) (tick fl t r) cs (tick-interval fl t r ∙ e) later up.1 in
    let none_there = before (window fl r.interval t.key_time) (rw e up.0) in rw (none_there, rest)

init_lem :
    (fl : Float64) (now later : ℕ) (r : RateLimiter)
    → millisecond ≤ r.interval
    → init fl now later r ≡ (record (update_current_key fl now later r) { ticking = true }, true)
unfolding init
init_lem fl now later r h = rw (ltb_of_le r.interval millisecond h)

-- What Init makes of a new limiter: an empty item for the window, and nothing else.
started :
    (fl : Float64) (base : String) (limit interval flush_interval multiplier now later : ℕ)
    → let r =
        record (update_current_key fl now later
          (new base limit interval flush_interval multiplier)) { ticking = true } in
      Drift 0 r × IsBefore (suc (window fl interval now)) r
unfolding new update_current_key insert lookup
started fl base limit interval flush_interval multiplier now later = (
  record { fits = omega arith; counted = omega arith; total = refl },
  λ w h.
      lookup-insert_later base (window fl interval now) w
        (record { value = 0; ttl = later + multiplier * flush_interval }) [] h refl,
)

-- A new limiter that Init starts, and whose rounds fall into ever later windows, has a total of
-- exactly the bytes that its store holds, modulo 2 ^ 64, whatever is counted in between.
pub run_balanced :
    (fl : Float64) (base : String) (limit interval flush_interval multiplier now later : ℕ)
    (cs : List Call)
    → millisecond ≤ interval
    → Increasing fl interval (suc (window fl interval now)) cs
    → let (r, started) = init fl now later (new base limit interval flush_interval multiplier) in
      (started ≡ true)
      × ((run fl r cs).total_stored_count ≡ sum_values (run fl r cs).items % u64_mod)
unfolding new update_current_key
run_balanced fl base limit interval flush_interval multiplier now later cs h up =
    rw (init_lem fl now later (new base limit interval flush_interval multiplier) h) (refl, total)
  where
    r : RateLimiter
    r =
        record (update_current_key fl now later
          (new base limit interval flush_interval multiplier)) { ticking = true }

    facts : Drift 0 r × IsBefore (suc (window fl interval now)) r
    facts = started fl base limit interval flush_interval multiplier now later

    total : (run fl r cs).total_stored_count ≡ sum_values (run fl r cs).items % u64_mod
    total = omega (
      arith,
      (run-Drift fl cs 0 r facts.0).total,
      excess_zero fl interval (suc (window fl interval now)) r cs refl facts.1 up,
    )
