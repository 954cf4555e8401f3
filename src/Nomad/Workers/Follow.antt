-- ===== src/Nomad/Workers/Follow.antt =====
-- The workers are those of the allocations in the pool.
use log_shipper.Base.{
  ◌≡◌, refl, ap, sym, ◌∙◌, String, Bool, true, false, not, ◌&&◌, ◌||◌, Option, none, some, List, [],
  ◌∷◌, if◌then◌else◌, ◌>>=◌, str_eq, eq_iff,
}
use log_shipper.Base.Lists.{All}
use log_shipper.Base.Dict.{
  lookup, insert, delete, IsMap, lookup-insert, insert-IsMap, lookup-delete, delete-IsMap,
}
use log_shipper.Nomad.{Allocation}
use log_shipper.Nomad.Pool.{AllocationPool, Announcement, added, removed, sync}
use log_shipper.Nomad.Pool.Announcements.{has_id, knows, sync-knows, AllNew, NoneTwice, sync-AllNew}
use log_shipper.Nomad.Workers.{
  AllocationWorker, AllocationWorkers, replaced, add, remove, remove_found, close_found,
  take_announcement, take_announcements,
}

abbrev pub is_some : Option AllocationWorker → Bool
is_some none = false
is_some (some w) = true

abbrev pub has_worker : String → AllocationWorkers → Bool
has_worker x a = is_some (lookup x a.workers)

abbrev pub Runs : Option AllocationWorker → Type 0
Runs none = Unit
Runs (some w) = w.stopped ≡ false

-- The map has no key twice, no worker in it was stopped, and every other worker was.
pub record AllRun (a : AllocationWorkers) : Type 0 where
  pub is_map : IsMap a.workers
  pub run : (x : String) → Runs (lookup x a.workers)
  pub stopped : All (λ w. w.stopped ≡ true) a.gone

if_some :
    (b : Bool) (w : AllocationWorker) (o : Option AllocationWorker)
    → is_some (if b then some w else o) ≡ b || is_some o
if_some true w o = refl
if_some false w o = refl

if_runs :
    (b : Bool) (w : AllocationWorker) (o : Option AllocationWorker)
    → w.stopped ≡ false
    → Runs o
    → Runs (if b then some w else o)
if_runs true w o h k = h
if_runs false w o h k = k

-- What is left of a worker that was written and then deleted.
if_deleted :
    (b : Bool) (w : AllocationWorker) (o : Option AllocationWorker)
    → is_some (if b then none else if b then some w else o) ≡ not b && is_some o
if_deleted true w o = refl
if_deleted false w o = refl

if_deleted_runs :
    (b : Bool) (w : AllocationWorker) (o : Option AllocationWorker)
    → Runs o
    → Runs (if b then none else if b then some w else o)
if_deleted_runs true w o k = tt
if_deleted_runs false w o k = k

module _ (alloc : Allocation) (a : AllocationWorkers) (all : AllRun a) where
  not_replaced :
      (o : Option AllocationWorker)
      → is_some o ≡ false
      → All (λ w. w.stopped ≡ true) (replaced o a.gone)
  unfolding replaced
  not_replaced none h = all.stopped
  not_replaced (some w) h = absurd (cc)

  add-AllRun :
      (w : AllocationWorker)
      → w.stopped ≡ false
      → has_worker alloc.id a ≡ false
      → AllRun (add alloc w a)
  unfolding add
  add-AllRun w h new = record {
    is_map = insert-IsMap alloc.id w a.workers all.is_map;
    run = λ x.
        rw (lookup-insert alloc.id x w a.workers) (if_runs (str_eq alloc.id x) w _ h (all.run x));
    stopped = not_replaced (lookup alloc.id a.workers) new;
  }

  add-has_worker :
      (w : AllocationWorker) (x : String)
      → has_worker x (add alloc w a) ≡ str_eq alloc.id x || has_worker x a
  unfolding add
  add-has_worker w x =
      ap is_some (lookup-insert alloc.id x w a.workers)
      ∙ if_some (str_eq alloc.id x) w (lookup x a.workers)

  -- A worker is stopped and leaves the map.
  abbrev Left : AllocationWorkers → Type 0
  Left a' = AllRun a' × ((x : String) → has_worker x a' ≡ not (str_eq alloc.id x) && has_worker x a)

  removes :
      (o : Option AllocationWorker)
      → lookup alloc.id a.workers ≡ o
      → (a' : AllocationWorkers) × ((close_found alloc a o >>= λ closed. some (remove alloc closed))
          ≡ some a')
        × Left a'
  unfolding close_found remove remove_found
  removes none e = (a, rw e refl, (all, λ x. absent x (str_eq alloc.id x) (eq_iff alloc.id x).0))
    where
      absent :
          (x : String) (same : Bool)
          → (same ≡ true → alloc.id ≡ x)
          → has_worker x a ≡ not same && has_worker x a
      absent x true h = ap is_some (ap (λ y. lookup y a.workers) (sym (h refl)) ∙ e)
      absent x false h = refl
  removes (some w) e =
      let w' : AllocationWorker = record w { stopped = true } in
      let closed = insert alloc.id w' a.workers in
      let runs : w.stopped ≡ false = rw e at (all.run alloc.id) in
      let here : lookup alloc.id closed ≡ some w' =
        lookup-insert alloc.id alloc.id w' a.workers
        ∙ rw ((eq_iff alloc.id alloc.id).1 refl) refl in
      let one = insert-IsMap alloc.id w' a.workers all.is_map in
      let after = λ (x : String).
        lookup-delete alloc.id x closed one
        ∙ ap (λ o. if str_eq alloc.id x then none else o) (lookup-insert alloc.id x w' a.workers) in
      (
        record { workers = delete alloc.id closed; gone = w' ∷ a.gone },
        rw runs (rw here refl),
        (
          record {
            is_map = delete-IsMap alloc.id closed one;
            run = λ x. rw (after x) (if_deleted_runs (str_eq alloc.id x) w' _ (all.run x));
            stopped = (refl, all.stopped);
          },
          λ x. ap is_some (after x) ∙ if_deleted (str_eq alloc.id x) w' _,
        ),
      )

-- The announcements, taken one after the other, never panic, if none adds what is known; then a
-- worker runs for exactly the identifiers that a receiver of the announcements knows.
take_announcements-knows :
    (announcements : List Announcement) (known : String → Bool) (a : AllocationWorkers)
    → AllRun a
    → ((x : String) → has_worker x a ≡ known x)
    → AllNew known announcements
    → (a' : AllocationWorkers) × (take_announcements announcements a ≡ some a')
      × AllRun a'
      × ((x : String) → has_worker x a' ≡ knows x announcements (known x))
unfolding take_announcements take_announcement
take_announcements-knows [] known a all same new = (a, refl, all, same)
take_announcements-knows (added alloc ∷ announcements) known a all same new =
    let w : AllocationWorker = record { allocation = alloc; stopped = false } in
    take_announcements-knows announcements (λ x. str_eq alloc.id x || known x) (add alloc w a)
      (add-AllRun alloc a all w refl (same alloc.id ∙ new.0))
      (λ x. add-has_worker alloc a all w x ∙ ap (λ b. str_eq alloc.id x || b) (same x)) new.1
take_announcements-knows (removed alloc ∷ announcements) known a all same new =
    let step = removes alloc a all (lookup alloc.id a.workers) refl in
    let rest =
      take_announcements-knows announcements (λ x. not (str_eq alloc.id x) && known x) step.0
        step.2.0 (λ x. step.2.1 x ∙ ap (λ b. not (str_eq alloc.id x) && b) (same x)) new in
    (rest.0, rw (step.1) (rest.1), rest.2, rest.3)

-- With a running worker for each allocation of the pool and for no other, and a list that has no
-- identifier twice, `ReceiveLogs` takes what a `Sync` announces without a panic; after it a worker
-- runs for each allocation of the new list and for no other.
pub workers_follow :
    (allocations : List Allocation) (p : AllocationPool) (a : AllocationWorkers)
    → AllRun a
    → ((x : String) → has_worker x a ≡ has_id x p.allocations)
    → NoneTwice allocations
    → (a' : AllocationWorkers) × (take_announcements (sync allocations p).0 a ≡ some a')
      × AllRun a'
      × ((x : String) → has_worker x a' ≡ has_id x (sync allocations p).1.allocations)
workers_follow allocations p a all same apart =
    let taken =
      take_announcements-knows (sync allocations p).0 (λ x. has_id x p.allocations) a all same
        (sync-AllNew allocations p apart) in
    let pool = sync-knows allocations p in
    (taken.0, taken.1, taken.2, λ x. taken.3 x ∙ pool.0 x ∙ ap (has_id x) (sym pool.1))
