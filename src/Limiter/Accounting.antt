-- ===== src/Limiter/Accounting.antt =====
-- The bytes that a rate limiter counts: where each operation puts them, and how far
-- `TotalStoredCount` stands above the bytes that the store holds.
use mathlib.Core.Path.{subst}
use log_shipper.Base.{
  ℕ, ◌+◌, ◌*◌, ◌%◌, ◌<◌, ◌≡◌, refl, true, false, Option, none, some, List, [], ◌∷◌, arith, ap,
  Bool-cases, inl, inr,
}
use mathlib.Core.Option.{some-injective}
use text.Mathlib.TextPositions.{eq_refl}
use log_shipper.Base.Word.{u64_mod, add64}
use log_shipper.Base.Dict.{lookup, insert, lookup-insert}
use log_shipper.Limiter.{
  Float64, RateLimiter, Readings, Call, ticks, counts, window, window_key, update_current_key,
  purge_expired_keys, store_flushed, flush, stop, increment, tick, step, run,
}
use log_shipper.Limiter.Store.{
  StoreItem, sum_values, Fits, value_at, sum_values-insert, Fits-insert, lookup-purge_items,
  Fits-purge_items, purge_items-total,
}

-- `TotalStoredCount` is what the store holds and `d` bytes that no item accounts for.
pub record Drift (d : ℕ) (r : RateLimiter) : Type 0 where
  pub fits : Fits r.items
  pub counted : r.current_count < u64_mod
  pub total : r.total_stored_count ≡ (sum_values r.items + d) % u64_mod

pub increment-Drift : {d : ℕ} {r : RateLimiter} (n : ℕ) → Drift d r → Drift d (increment n r)
unfolding increment
increment-Drift n v = record { fits = v.fits; counted = omega arith; total = v.total }

-- The bytes already stored under the key that the window of `now` has.
unfoldable pub stale : Float64 → ℕ → RateLimiter → ℕ
stale fl now r = value_at (lookup (window_key r.base_key (window fl r.interval now)) r.items)

pub update_current_key-Drift :
    (fl : Float64) (now later : ℕ) {d : ℕ} {r : RateLimiter}
    → Drift d r
    → Drift (d + stale fl now r) (update_current_key fl now later r)
unfolding update_current_key stale
update_current_key-Drift fl now later {r} v = record {
  fits = Fits-insert _ _ r.items (omega arith) v.fits;
  counted = v.counted;
  total = omega (
    arith,
    v.total,
    sum_values-insert (window_key r.base_key (window fl r.interval now)) _ r.items,
  );
}

purge_expired_keys-Drift :
    (clock : ℕ → ℕ) {d : ℕ} {r : RateLimiter} → Drift d r → Drift d (purge_expired_keys clock r)
unfolding purge_expired_keys
purge_expired_keys-Drift clock {d} {r} v = record {
  fits = Fits-purge_items r.current_key clock r.items r.total_stored_count v.fits;
  counted = v.counted;
  total = purge_items-total r.current_key clock r.items d r.total_stored_count v.fits v.total;
}

-- A flush adds the whole value of the current item, not only the bytes that are new.
flush-Drift :
    {d : ℕ} {r : RateLimiter}
    → Drift d r
    → Drift (d + value_at (lookup r.current_key r.items)) (flush r)
unfolding flush
flush-Drift {d} {r} v = go (lookup r.current_key r.items) refl
  where
    go :
        (o : Option StoreItem)
        → lookup r.current_key r.items ≡ o
        → Drift (d + value_at o) (store_flushed (record r { current_count = 0 }) r.current_count o)
    go none e = record { fits = v.fits; counted = omega arith; total = omega (arith, v.total) }
    go (some item) e = record {
      fits = Fits-insert r.current_key _ r.items (omega arith) v.fits;
      counted = omega arith;
      total = omega (
        arith,
        v.total,
        sum_values-insert r.current_key (record item { value = add64 item.value r.current_count })
            r.items,
        ap value_at e,
      );
    }

-- The limiter when a round of the goroutine comes to its flush, and its item of the current key.
abbrev pub before_flush : Float64 → Readings → RateLimiter → RateLimiter
before_flush fl t r =
    purge_expired_keys t.purge_time (update_current_key fl t.key_time t.ttl_time r)

lookup-before_flush :
    (fl : Float64) (t : Readings) (r : RateLimiter)
    → lookup (before_flush fl t r).current_key (before_flush fl t r).items
      ≡ some (record { value = 0; ttl = t.ttl_time + r.store_multiplier * r.flush_interval })
unfolding purge_expired_keys update_current_key
lookup-before_flush fl t r = simp (lookup-purge_items, lookup-insert, eq_refl)

pub tick-Drift :
    (fl : Float64) (t : Readings) {d : ℕ} {r : RateLimiter}
    → Drift d r
    → Drift (d + stale fl t.key_time r) (tick fl t r)
unfolding tick
tick-Drift fl t {d} {r} v = subst (λ e. Drift e (tick fl t r)) (omega arith) exact
  where
    exact : Drift (d + stale fl t.key_time r + 0) (tick fl t r)
    exact = rw (lookup-before_flush fl t r) at (
        flush-Drift (
          purge_expired_keys-Drift t.purge_time
            (update_current_key-Drift fl t.key_time t.ttl_time v)))

flush-some :
    (r : RateLimiter) (item : StoreItem)
    → lookup r.current_key r.items ≡ some item
    → flush r ≡ record r {
      current_count = 0;
      items =
          insert r.current_key (record item { value = add64 item.value r.current_count }) r.items;
      synced_count = add64 r.synced_count (add64 item.value r.current_count);
      total_stored_count = add64 r.total_stored_count (add64 item.value r.current_count);
    }
unfolding flush
flush-some r item e = rw (e, store_flushed)

-- What a round leaves behind.
pub tick_lem :
    (fl : Float64) (t : Readings) (r : RateLimiter)
    → let b = before_flush fl t r in
      let bytes = add64 0 r.current_count in
      let ttl = t.ttl_time + r.store_multiplier * r.flush_interval in
      tick fl t r ≡ record b {
        current_count = 0;
        items = insert b.current_key (record { value = bytes; ttl = ttl }) b.items;
        synced_count = add64 r.synced_count bytes;
        total_stored_count = add64 b.total_stored_count bytes;
      }
unfolding tick purge_expired_keys update_current_key
tick_lem fl t r = flush-some (before_flush fl t r) _ (lookup-before_flush fl t r)

-- A round moves all the bytes counted since the last one into the item of its window, adds them to
-- `syncedCount`, and leaves none in `currentCount`.
pub tick_stores :
    (fl : Float64) (t : Readings) (r : RateLimiter)
    → r.current_count < u64_mod
    → let r' = tick fl t r in
      (r'.current_key ≡ window_key r.base_key (window fl r.interval t.key_time))
      × (lookup r'.current_key r'.items
          ≡ some (record {
            value = r.current_count;
            ttl = t.ttl_time + r.store_multiplier * r.flush_interval;
          }))
      × (r'.synced_count ≡ add64 r.synced_count r.current_count)
      × (r'.current_count ≡ 0)
unfolding purge_expired_keys update_current_key
tick_stores fl t r h =
    rw tick_lem (refl, simp (lookup-insert, eq_refl) (ground arith), ground arith, refl)

-- What the rounds of a history leave unaccounted: the items that they write over.
unfoldable pub excess : Float64 → RateLimiter → List Call → ℕ
excess fl r [] = 0
excess fl r (ticks t ∷ cs) = stale fl t.key_time r + excess fl (step fl r (ticks t)) cs
excess fl r (counts n ∷ cs) = excess fl (step fl r (counts n)) cs

-- After any history the total is the bytes in the store and the bytes that were written over.
pub run-Drift :
    (fl : Float64) (cs : List Call) (d : ℕ) (r : RateLimiter)
    → Drift d r
    → Drift (d + excess fl r cs) (run fl r cs)
unfolding run step excess
run-Drift fl [] d r v = subst (λ e. Drift e r) (omega arith) v
run-Drift fl (ticks t ∷ cs) d r v =
    subst (λ e. Drift e (run fl (tick fl t r) cs)) (omega arith)
      (run-Drift fl cs (d + stale fl t.key_time r) (tick fl t r) (tick-Drift fl t v))
run-Drift fl (counts n ∷ cs) d r v = run-Drift fl cs d (increment n r) (increment-Drift n v)

-- Stop flushes into the item that the last round filled, and so counts its bytes twice.
pub stop-Drift :
    {d : ℕ} {r r' : RateLimiter}
    → Drift d r
    → stop r ≡ some r'
    → Drift (d + value_at (lookup r.current_key r.items)) r'
unfolding stop
stop-Drift {d} {r} {r'} v e = elim (Bool-cases r.stop_closed) [
  | inl closed ↦ cc
  | inr open_ ↦
      subst (Drift (d + value_at (lookup r.current_key r.items)))
        (some-injective _ _ (rw open_ at e))
        (flush-Drift {r = record r { stop_closed = true; ticking = false }}
          (record { fits = v.fits; counted = v.counted; total = v.total }))
]
