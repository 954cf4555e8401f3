-- ===== src/Nomad/Workers/Ticks.antt =====
-- source/nomad/client.go: `ReceiveLogs` from its session on: at each tick of syncAllocations the
-- allocations of the client's nodes are synced with the pool, which tells the loop that keeps the
-- workers.
pub mod Listed
mod Tests
use log_shipper.Base.{
  ℕ, ◌/◌, ◌≡◌, refl, ap, sym, ◌∙◌, String, Bool, false, Option, none, some, List, [], ◌∷◌, ◌==◌,
  if◌then◌else◌, ◌>>=◌,
}
use log_shipper.Base.Dict.{lookup}
use log_shipper.Nomad.{Allocation}
use log_shipper.Nomad.Pool.{AllocationPool, new_allocation_pool, sync}
use log_shipper.Nomad.Failover.{
  Cluster, Client, Result, returns, panics, out_of_fuel, get_allocations,
}
use log_shipper.Nomad.Workers.{
  AllocationWorkers, NewClient, new_allocation_workers, take_announcements,
}

-- The session that Consul creates for a name and a TTL, or an error; and how Go reads a duration.
pub record Clocks : Type 0 where
  pub create : String → String → Option String
  pub parse_duration : String → Option ℕ

unfoldable pub create_session : Clocks → NewClient → Option NewClient
create_session clocks c = do
  id ← clocks.create c.id c.session_ttl
  some (record c { client = record (c.client) { session_id = id } })

-- Half the TTL; a ticker of no time panics.
unfoldable pub tick_interval : Clocks → NewClient → Option ℕ
tick_interval clocks c = do
  duration ← clocks.parse_duration c.session_ttl
  if duration / 2 == 0 then none else some (duration / 2)

-- What goes on in a client that runs.
pub record Following : Type 0 where
  pub pool : AllocationPool
  pub workers : AllocationWorkers

module _ {K : Type 0} (cluster : Cluster K) where
  followed : AllocationPool → Option AllocationWorkers → Result Following
  followed pool none = panics
  followed pool (some workers) = returns (record { pool = pool; workers = workers })

  synced : Following → Result (List Allocation) → Result Following
  unfolding followed
  synced s (returns allocations) =
      let told = sync allocations s.pool in followed told.1 (take_announcements told.0 s.workers)
  synced s panics = panics
  synced s out_of_fuel = out_of_fuel

  -- One tick of `syncAllocations`, at a state of Consul and Nomad.
  unfoldable pub tick : Client → ℕ → K → Following → Result Following
  unfolding synced
  tick c fuel k s = synced s (get_allocations cluster c fuel k)

  and_then : Result Following → (Following → Result Following) → Result Following
  and_then (returns s) next = next s
  and_then panics next = panics
  and_then out_of_fuel next = out_of_fuel

  unfoldable pub ticks : Client → ℕ → List K → Following → Result Following
  unfolding and_then
  ticks c fuel [] s = returns s
  ticks c fuel (k ∷ ks) s = and_then (tick c fuel k s) (ticks c fuel ks)

  follow : ℕ → List K → NewClient → Option ℕ → Result Following
  follow fuel ks c none = panics
  follow fuel ks c (some interval) =
      ticks c.client fuel ks (record { pool = new_allocation_pool; workers = c.workers })

  received : Clocks → ℕ → List K → Option NewClient → Result Following
  unfolding follow
  received clocks fuel ks none = panics
  received clocks fuel ks (some c) = follow fuel ks c (tick_interval clocks c)

  -- `ReceiveLogs` up to so many ticks.
  unfoldable pub receive_logs : Clocks → ℕ → List K → NewClient → Result Following
  unfolding received
  receive_logs clocks fuel ks c = received clocks fuel ks (create_session clocks c)
