-- ===== src/Limiter/Races/Rounds.antt =====
-- The interleaved limiter is one whose calls happen at once.
use mathlib.Core.Path.{subst}
use log_shipper.Base.{
  true, false, suc, String, ℕ, ◌≡◌, refl, sym, ap, ◌∙◌, Option, none, some, List, [], ◌∷◌, ◌++◌,
  append_assoc,
}
use log_shipper.Base.Word.{add64, sub64, not64}
use log_shipper.Base.Dict.{Dict, lookup}
use log_shipper.Limiter.Store.{StoreItem, is_expired, purge_items}
use log_shipper.Limiter.{
  Float64, RateLimiter, Call, update_current_key, purge_expired_keys, store_flushed, flush,
  increment, tick, step, run,
}
use log_shipper.Limiter.Accounting.{before_flush}
use log_shipper.Limiter.Races.{
  Stage, resting, keyed, purging, swapped, found, written, synced, Racing, new_key, set_empty, Step,
  count, choose_key, clear_item, keep_item, drop_item, swap, miss_item, get_item, set_item,
  add_synced, add_total, Runs, rests, goes_on,
}

-- The limiter in the middle of a round, and the limiter whose calls happened at once: the round
-- happens when `currentCount` is emptied.
abbrev Stands : Float64 → Stage → RateLimiter → RateLimiter → Type 0
Stands fl resting r a = r ≡ a
Stands fl (keyed t) r a = r ≡ new_key fl t a
Stands fl (purging t clock kept todo) r a =
    (r.items ≡ kept ++ todo)
    × (before_flush fl t a ≡ record r {
      items = kept ++ (purge_items r.current_key clock todo r.total_stored_count).0;
      total_stored_count = (purge_items r.current_key clock todo r.total_stored_count).1;
    })
Stands fl (swapped n) r a = a ≡ store_flushed r n (lookup r.current_key r.items)
Stands fl (found n item) r a = a ≡ store_flushed r n (some item)
Stands fl (written value) r a = a ≡ record r {
  synced_count = add64 r.synced_count value;
  total_stored_count = add64 r.total_stored_count value;
}
Stands fl (synced value) r a =
    a ≡ record r { total_stored_count = add64 r.total_stored_count value }

module _ (fl : Float64) where
  store_flushed-increment :
      (n m : ℕ) (r : RateLimiter) (o : Option StoreItem)
      → store_flushed (increment n r) m o ≡ increment n (store_flushed r m o)
  unfolding increment store_flushed
  store_flushed-increment n m r none = refl
  store_flushed-increment n m r (some item) = refl

  Stands-increment :
      (n : ℕ) (s : Stage) (r a : RateLimiter)
      → Stands fl s r a
      → Stands fl s (increment n r) (increment n a)
  unfolding increment purge_expired_keys update_current_key
  Stands-increment n resting r a e = ap (increment n) e
  Stands-increment n (keyed t) r a e = ap (increment n) e
  Stands-increment n (purging t clock kept todo) r a e = (e.0, ap (increment n) e.1)
  Stands-increment n (swapped m) r a e =
      ap (increment n) e ∙ sym (store_flushed-increment n m r (lookup r.current_key r.items))
  Stands-increment n (found m item) r a e =
      ap (increment n) e ∙ sym (store_flushed-increment n m r (some item))
  Stands-increment n (written value) r a e = ap (increment n) e
  Stands-increment n (synced value) r a e = ap (increment n) e

  -- The limiter when the loop over its store has come to an end.
  abbrev purged : Dict StoreItem → RateLimiter → Dict StoreItem × ℕ → RateLimiter
  purged kept r (rest, total) = record r { items = kept ++ rest; total_stored_count = total }

  purge_items-kept :
      (current key : String) (clock : ℕ → ℕ) (item : StoreItem) (rest : Dict StoreItem) (total : ℕ)
      → is_expired current (clock 0) key item ≡ false
      → let p = purge_items current (λ i. clock (suc i)) rest total in
        purge_items current clock ((key, item) ∷ rest) total ≡ ((key, item) ∷ p.0, p.1)
  unfolding purge_items
  purge_items-kept current key clock item rest total e = rw e refl

  purge_items-dropped :
      (current key : String) (clock : ℕ → ℕ) (item : StoreItem) (rest : Dict StoreItem) (total : ℕ)
      → is_expired current (clock 0) key item ≡ true
      → purge_items current clock ((key, item) ∷ rest) total
        ≡ purge_items current (λ i. clock (suc i)) rest (add64 total (not64 (sub64 item.value 1)))
  unfolding purge_items
  purge_items-dropped current key clock item rest total e = rw e refl

  Stands-Step :
      {s s' : Racing} {cs : List Call} (a : RateLimiter)
      → Step fl s cs s'
      → Stands fl s.stage s.limiter a
      → Stands fl s'.stage s'.limiter (run fl a cs)
  unfolding run step tick flush purge_expired_keys update_current_key store_flushed purge_items
  Stands-Step {s} a (count n) e = Stands-increment n s.stage s.limiter a e
  Stands-Step a (choose_key t) e = ap (new_key fl t) e
  Stands-Step a (clear_item {t = t}) e =
      (refl, ap (λ x. purge_expired_keys t.purge_time (set_empty t x)) (sym e))
  Stands-Step a (keep_item {r} {clock = clock} {kept} {rest} key item stays) e = (
    e.0 ∙ sym (append_assoc kept ((key, item) ∷ []) rest),
    e.1
        ∙ ap (purged kept r)
            (purge_items-kept r.current_key key clock item rest r.total_stored_count stays)
        ∙ ap
            (λ items. record r {
              items = items;
              total_stored_count =
                  (purge_items r.current_key (λ i. clock (suc i)) rest r.total_stored_count).1;
            })
            (sym (append_assoc kept ((key, item) ∷ []) _)),
  )
  Stands-Step a (drop_item {r} {clock = clock} {kept} {rest} key item gone) e = (
    refl,
    e.1
        ∙ ap (purged kept r)
            (purge_items-dropped r.current_key key clock item rest r.total_stored_count gone),
  )
  Stands-Step a (swap {r}) e = ap flush (e.1 ∙ ap (λ items. record r { items = items }) (sym e.0))
  Stands-Step a (miss_item {r} {n} none_) e = sym (e ∙ ap (store_flushed r n) none_)
  Stands-Step a (get_item {r} {n} item some_) e = e ∙ ap (store_flushed r n) some_
  Stands-Step a set_item e = e
  Stands-Step a add_synced e = e
  Stands-Step a add_total e = sym e

  run-append : (cs ds : List Call) (a : RateLimiter) → run fl a (cs ++ ds) ≡ run fl (run fl a cs) ds
  unfolding run
  run-append [] ds a = refl
  run-append (c ∷ cs) ds a = run-append cs ds (step fl a c)

  Stands-Runs :
      {s s' : Racing} {cs : List Call} (a : RateLimiter)
      → Runs fl s cs s'
      → Stands fl s.stage s.limiter a
      → Stands fl s'.stage s'.limiter (run fl a cs)
  unfolding run
  Stands-Runs a rests e = e
  Stands-Runs {s' = s'} a (goes_on {cs = cs} {ds} runs step_) e =
      subst (Stands fl s'.stage s'.limiter) (sym (run-append cs ds a))
        (Stands-Step (run fl a cs) step_ (Stands-Runs a runs e))

  -- Whatever accesses of a round of the goroutine and whatever counts of other goroutines come
  -- between each other, once the goroutine waits again the limiter is what the same counts and
  -- rounds make of it one after the other, each round at the moment at which it empties
  -- `currentCount`: no byte is lost or counted twice by an interleaving.
  pub Runs-run :
      {r r' : RateLimiter} {cs : List Call}
      → Runs fl
          (record { stage = resting; limiter = r })
          cs
          (record { stage = resting; limiter = r' })
      → r' ≡ run fl r cs
  Runs-run {r} runs = Stands-Runs r runs refl
