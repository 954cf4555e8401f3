-- ===== src/Limiter/Races.antt =====
-- limiter/limiter.go: the goroutine of Init, one access of shared memory at a time, with the
-- `Increment` of other goroutines in between.
pub mod Rounds
mod Tests
use log_shipper.Base.{ℕ, ◌≡◌, true, false, none, some, List, [], ◌∷◌, ◌++◌, ◌+◌, ◌*◌, suc, String}
use log_shipper.Base.Word.{add64, sub64, not64}
use log_shipper.Base.Dict.{Dict, lookup, insert}
use log_shipper.Limiter.Store.{StoreItem, is_expired}
use log_shipper.Limiter.{
  Float64, RateLimiter, Readings, Call, ticks, counts, window, window_key, increment,
}

-- How far the goroutine is in its round: it waits for the ticker; it has the key of the round; it
-- goes through the items of the store, some of them behind it; it has emptied `currentCount`; it has
-- got the item of its key; it has stored the item; it has counted the item as synced.
pub data Stage : Type 0 where
  resting : Stage
  keyed : Readings → Stage
  purging : Readings → (ℕ → ℕ) → Dict StoreItem → Dict StoreItem → Stage
  swapped : ℕ → Stage
  found : ℕ → StoreItem → Stage
  written synced : ℕ → Stage

pub record Racing : Type 0 where
  pub stage : Stage
  pub limiter : RateLimiter

abbrev pub new_key : Float64 → Readings → RateLimiter → RateLimiter
new_key fl t r = record r { current_key = window_key r.base_key (window fl r.interval t.key_time) }

-- `Store.Set` of an empty item.
abbrev pub set_empty : Readings → RateLimiter → RateLimiter
set_empty t r = record r {
  items =
      insert r.current_key
        (record { value = 0; ttl = t.ttl_time + r.store_multiplier * r.flush_interval }) r.items;
}

-- One access, with the call that it stands for, if any. The store is locked while its items are
-- purged, and the total is not.
pub data Step (fl : Float64) : Racing → List Call → Racing → Type 0 where
  count :
      {s : Racing} (n : ℕ)
      → Step fl s (counts n ∷ []) (record s { limiter = increment n s.limiter })
  choose_key :
      {r : RateLimiter} (t : Readings)
      → Step fl
          (record { stage = resting; limiter = r })
          []
          (record { stage = keyed t; limiter = new_key fl t r })
  clear_item :
      {r : RateLimiter} {t : Readings}
      → Step fl
          (record { stage = keyed t; limiter = r })
          []
          (record {
            stage = purging t t.purge_time [] (set_empty t r).items;
            limiter = set_empty t r;
          })
  keep_item :
      {r : RateLimiter} {t : Readings} {clock : ℕ → ℕ} {kept rest : Dict StoreItem} (key : String)
      (item : StoreItem)
      → is_expired r.current_key (clock 0) key item ≡ false
      → Step fl
          (record { stage = purging t clock kept ((key, item) ∷ rest); limiter = r })
          []
          (record {
            stage = purging t (λ i. clock (suc i)) (kept ++ (key, item) ∷ []) rest;
            limiter = r;
          })
  drop_item :
      {r : RateLimiter} {t : Readings} {clock : ℕ → ℕ} {kept rest : Dict StoreItem} (key : String)
      (item : StoreItem)
      → is_expired r.current_key (clock 0) key item ≡ true
      → Step fl
          (record { stage = purging t clock kept ((key, item) ∷ rest); limiter = r })
          []
          (record {
            stage = purging t (λ i. clock (suc i)) kept rest;
            limiter = record r {
              items = kept ++ rest;
              total_stored_count = add64 r.total_stored_count (not64 (sub64 item.value 1));
            };
          })
  swap :
      {r : RateLimiter} {t : Readings} {clock : ℕ → ℕ} {kept : Dict StoreItem}
      → Step fl
          (record { stage = purging t clock kept []; limiter = r })
          (ticks t ∷ [])
          (record { stage = swapped r.current_count; limiter = record r { current_count = 0 } })
  miss_item :
      {r : RateLimiter} {n : ℕ}
      → lookup r.current_key r.items ≡ none
      → Step fl
          (record { stage = swapped n; limiter = r })
          []
          (record { stage = resting; limiter = r })
  get_item :
      {r : RateLimiter} {n : ℕ} (item : StoreItem)
      → lookup r.current_key r.items ≡ some item
      → Step fl
          (record { stage = swapped n; limiter = r })
          []
          (record { stage = found n item; limiter = r })
  set_item :
      {r : RateLimiter} {n : ℕ} {item : StoreItem}
      → Step fl
          (record { stage = found n item; limiter = r })
          []
          (record {
            stage = written (add64 item.value n);
            limiter = record r {
              items = insert r.current_key (record item { value = add64 item.value n }) r.items;
            };
          })
  add_synced :
      {r : RateLimiter} {value : ℕ}
      → Step fl
          (record { stage = written value; limiter = r })
          []
          (record {
            stage = synced value;
            limiter = record r { synced_count = add64 r.synced_count value };
          })
  add_total :
      {r : RateLimiter} {value : ℕ}
      → Step fl
          (record { stage = synced value; limiter = r })
          []
          (record {
            stage = resting;
            limiter = record r { total_stored_count = add64 r.total_stored_count value };
          })

-- Accesses one after the other, with the calls that they stand for.
pub data Runs (fl : Float64) : Racing → List Call → Racing → Type 0 where
  rests : {s : Racing} → Runs fl s [] s
  goes_on :
      {s t u : Racing} {cs ds : List Call}
      → Runs fl s cs t
      → Step fl t ds u
      → Runs fl s (cs ++ ds) u
