-- ===== src/Limiter/Store.antt =====
-- limiter/limiter.go: `StoreItem`, and the loop of `purgeExpiredKeys` over the store.
use log_shipper.Base.{
  ℕ, ◌+◌, ◌%◌, ◌<◌, suc, ◌≡◌, refl, inl, inr, String, Bool, not, ◌&&◌, Option, none, some, [], ◌∷◌,
  arith, ltb, if◌then◌else◌, str_eq, Bool-cases,
}
use log_shipper.Base.Word.{u64_mod, add64, sub64, not64}
use log_shipper.Base.Dict.{Dict, lookup, insert}

pub record StoreItem : Type 0 where
  pub value : ℕ
  pub ttl : ℕ

-- `time.Since(item.TTL) > 0`, read only for a key that is not the current one.
unfoldable pub is_expired : String → ℕ → String → StoreItem → Bool
is_expired current now key item = not (str_eq key current) && ltb item.ttl now

-- The loop, with the total that it lowers; the order of the entries stands for Go's map order.
unfoldable pub purge_items : String → (ℕ → ℕ) → Dict StoreItem → ℕ → Dict StoreItem × ℕ
unfolding is_expired
purge_items current clock [] total = ([], total)
purge_items current clock ((key, item) ∷ rest) total =
    let expired = is_expired current (clock 0) key item in
    let lowered = if expired then add64 total (not64 (sub64 item.value 1)) else total in
    let (kept, total') = purge_items current (λ i. clock (suc i)) rest lowered in
    (if expired then kept else (key, item) ∷ kept, total')

-- The bytes that the store holds, before wrap-around.
abbrev pub sum_values : Dict StoreItem → ℕ
sum_values [] = 0
sum_values ((key, item) ∷ rest) = item.value + sum_values rest

-- Every item is a word.
abbrev pub Fits : Dict StoreItem → Type 0
Fits [] = Unit {0}
Fits ((key, item) ∷ rest) = (item.value < u64_mod) × Fits rest

abbrev pub value_at : Option StoreItem → ℕ
value_at none = 0
value_at (some item) = item.value

-- What a write adds to the sum, and what it takes away.
pub sum_values-insert :
    (key : String) (item : StoreItem) (m : Dict StoreItem)
    → sum_values (insert key item m) + value_at (lookup key m) ≡ sum_values m + item.value
unfolding insert lookup
sum_values-insert key item [] = omega arith
sum_values-insert key item ((k, x) ∷ m) = ground (arith, sum_values-insert key item m)

pub Fits-insert :
    (key : String) (item : StoreItem) (m : Dict StoreItem)
    → item.value < u64_mod
    → Fits m
    → Fits (insert key item m)
unfolding insert
Fits-insert key item [] h f = (h, tt)
Fits-insert key item ((k, x) ∷ m) h f = ground (arith, Fits-insert key item m h f.1)

pub value_at-lookup-lt :
    (key : String) (m : Dict StoreItem) → Fits m → value_at (lookup key m) < u64_mod
unfolding lookup
value_at-lookup-lt key [] f = omega arith
value_at-lookup-lt key ((k, x) ∷ m) f = ground (arith, value_at-lookup-lt key m f.1)

-- The purge keeps the current key.
pub lookup-purge_items :
    (current : String) (clock : ℕ → ℕ) (m : Dict StoreItem) (total : ℕ)
    → lookup current (purge_items current clock m total).0 ≡ lookup current m
unfolding purge_items lookup
lookup-purge_items current clock [] total = refl
lookup-purge_items current clock ((k, x) ∷ m) total = ground (
  arith,
  lookup-purge_items current (λ i. clock (suc i)) m total,
  lookup-purge_items current (λ i. clock (suc i)) m (add64 total (not64 (sub64 x.value 1))),
)

pub Fits-purge_items :
    (current : String) (clock : ℕ → ℕ) (m : Dict StoreItem) (total : ℕ)
    → Fits m
    → Fits (purge_items current clock m total).0
unfolding purge_items
Fits-purge_items current clock [] total f = tt
Fits-purge_items current clock ((k, x) ∷ m) total f = ground (
  arith,
  Fits-purge_items current (λ i. clock (suc i)) m total f.1,
  Fits-purge_items current (λ i. clock (suc i)) m (add64 total (not64 (sub64 x.value 1))) f.1,
)

-- The total falls by exactly the bytes of the items that go.
pub purge_items-total :
    (current : String) (clock : ℕ → ℕ) (m : Dict StoreItem) (d total : ℕ)
    → Fits m
    → total ≡ (sum_values m + d) % u64_mod
    → (purge_items current clock m total).1
      ≡ (sum_values (purge_items current clock m total).0 + d) % u64_mod
unfolding purge_items
purge_items-total current clock [] d total f e = e
purge_items-total current clock ((k, x) ∷ m) d total f e =
    elim (Bool-cases (is_expired current (clock 0) k x)) [
      | inl gone ↦ rw gone (
          purge_items-total current (λ i. clock (suc i)) m d (add64 total (not64 (sub64 x.value 1)))
            f.1 (omega (arith, e)))
      | inr stays ↦ rw stays (
          omega (
            arith,
            purge_items-total current (λ i. clock (suc i)) m (d + x.value) total f.1
                (omega (arith, e)),
          ))
    ]
