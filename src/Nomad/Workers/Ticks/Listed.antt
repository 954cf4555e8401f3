-- ===== src/Nomad/Workers/Ticks/Listed.antt =====
-- A client that receives logs has a worker for each allocation that its last tick read.
use log_shipper.Base.{ℕ, ◌≡◌, refl, sym, ap, ◌∙◌, String, some, List, [], ◌∷◌}
use log_shipper.Base.Lists.{All}
use log_shipper.Base.Dict.{Dict, lookup}
use log_shipper.Nomad.{Allocation}
use log_shipper.Nomad.Pool.{new_allocation_pool, sync}
use log_shipper.Nomad.Pool.Announcements.{has_id, sync-knows, NoneTwice}
use log_shipper.Nomad.Failover.{
  Cluster, Client, Result, returns, panics, out_of_fuel, get_allocations,
}
use log_shipper.Nomad.Workers.{new_allocation_workers, new_client}
use log_shipper.Nomad.Workers.Follow.{AllRun, has_worker, workers_follow}
use log_shipper.Nomad.Workers.Ticks.{
  Clocks, create_session, tick_interval, Following, followed, synced, tick, and_then, ticks, follow,
  received, receive_logs,
}

-- A worker runs for each of these allocations and for no other, also not outside the map, and the
-- pool has them.
pub record Listed (allocations : List Allocation) (s : Following) : Type 0 where
  pub run : AllRun s.workers
  pub pooled : s.pool.allocations ≡ allocations
  pub worked : (x : String) → has_worker x s.workers ≡ has_id x allocations

-- If a reading succeeds, it has no identifier twice.
abbrev pub ReadsApart : Result (List Allocation) → Type 0
ReadsApart (returns allocations) = NoneTwice allocations
ReadsApart panics = Unit
ReadsApart out_of_fuel = Unit

-- A client that goes on has the workers for what it read, and it fails only as the reading fails.
abbrev pub Follows : Result (List Allocation) → Result Following → Type 0
Follows (returns allocations) (returns s) = Listed allocations s
Follows (returns allocations) panics = ⊥
Follows (returns allocations) out_of_fuel = ⊥
Follows panics o = o ≡ panics
Follows out_of_fuel o = o ≡ out_of_fuel

module _ {K : Type 0} (cluster : Cluster K) where
  -- What the last of these ticks reads, or the failure of the first that fails.
  abbrev next_read :
      (List Allocation → Result (List Allocation))
      → Result (List Allocation)
      → Result (List Allocation)
  next_read next (returns allocations) = next allocations
  next_read next panics = panics
  next_read next out_of_fuel = out_of_fuel

  abbrev pub last_read : Client → ℕ → List Allocation → List K → Result (List Allocation)
  last_read c fuel before [] = returns before
  last_read c fuel before (k ∷ ks) =
      next_read (λ read. last_read c fuel read ks) (get_allocations cluster c fuel k)

  ticks-Follows :
      (c : Client) (fuel : ℕ) (ks : List K) (before : List Allocation) (s : Following)
      → All (λ k. ReadsApart (get_allocations cluster c fuel k)) ks
      → Listed before s
      → Follows (last_read c fuel before ks) (ticks cluster c fuel ks s)
  unfolding ticks tick synced followed and_then
  ticks-Follows c fuel [] before s apart listed = listed
  ticks-Follows c fuel (k ∷ ks) before s apart listed =
      go (λ now s'. ticks-Follows c fuel ks now s' apart.1) (get_allocations cluster c fuel k)
        apart.0
    where
      go :
          ((now : List Allocation) (s' : Following)
            → Listed now s'
            → Follows (last_read c fuel now ks) (ticks cluster c fuel ks s'))
          → (read : Result (List Allocation)) → ReadsApart read
          → Follows
              (next_read (λ now. last_read c fuel now ks) read)
              (and_then cluster (synced cluster s read) (ticks cluster c fuel ks))
      go rest panics once = refl
      go rest out_of_fuel once = refl
      go rest (returns now) once =
          let told =
            workers_follow now s.pool s.workers listed.run
              (λ x. listed.worked x ∙ ap (has_id x) (sym listed.pooled)) once in
          let pooled = (sync-knows now s.pool).1 in
          rw (told.1) (
            rest now (record { pool = (sync now s.pool).1; workers = told.0 })
              (record {
                run = told.2;
                pooled = pooled;
                worked = λ x. told.3 x ∙ ap (has_id x) pooled;
              }))

  -- A new client whose session is created and whose TTL makes a ticker, after any number of ticks,
  -- whatever happens in Consul and Nomad at them, and to the locks of the nodes, if no tick reads an
  -- identifier twice: it has a worker that was not stopped for each allocation that its last tick
  -- read, and for no other; it has stopped every other worker that it ever started; and it panics
  -- only if the reading of allocations does.
  pub receive_logs-Follows :
      (clocks : Clocks) (config : Dict String) (consul_addr session : String) (interval fuel : ℕ)
      (ks : List K)
      → (clocks.create
            (new_client config consul_addr).id
            (new_client config consul_addr).session_ttl
          ≡ some session)
      → tick_interval clocks (new_client config consul_addr) ≡ some interval
      → All
          (λ k. ReadsApart (
            get_allocations cluster
              (record ((new_client config consul_addr).client) { session_id = session })
              fuel
              k))
          ks
      → Follows
          (last_read
            (record ((new_client config consul_addr).client) { session_id = session })
            fuel
            []
            ks)
          (receive_logs cluster clocks fuel ks (new_client config consul_addr))
  unfolding receive_logs received follow create_session tick_interval new_client
      new_allocation_workers new_allocation_pool lookup
  receive_logs-Follows clocks config consul_addr session interval fuel ks created ticking apart =
      rw created (
        rw ticking (
          ticks-Follows _ fuel ks []
            (record { pool = new_allocation_pool; workers = new_allocation_workers }) apart
            (record {
              run = record { is_map = tt; run = λ x. tt; stopped = tt };
              pooled = refl;
              worked = λ x. refl;
            })))
