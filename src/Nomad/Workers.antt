-- ===== src/Nomad/Workers.antt =====
-- source/nomad/client.go: the workers of the allocations, which `ReceiveLogs` starts and stops as
-- the pool announces, and the settings of a new client.
pub mod Follow
pub mod Ticks
mod Tests
use log_shipper.Base.{
  String, Bool, true, false, not, ◌&&◌, Option, none, some, List, [], ◌∷◌, if◌then◌else◌, ◌>>=◌,
  str_eq,
}
use log_shipper.Base.Dict.{Dict, lookup, insert, delete}
use log_shipper.Nomad.{Allocation}
use log_shipper.Nomad.Config.{text_or}
use log_shipper.Nomad.Failover.{Client}
use log_shipper.Nomad.Pool.{Announcement, added, removed}

-- A worker, and whether its `Stop` channel was closed.
pub record AllocationWorker : Type 0 where
  pub allocation : Allocation
  pub stopped : Bool

-- The map, and the workers that were in it and are no more: one that was not stopped runs on.
pub record AllocationWorkers : Type 0 where
  pub workers : Dict AllocationWorker
  pub gone : List AllocationWorker

unfoldable pub new_allocation_workers : AllocationWorkers
new_allocation_workers = record { workers = []; gone = [] }

replaced : Option AllocationWorker → List AllocationWorker → List AllocationWorker
replaced none gone = gone
replaced (some worker) gone = worker ∷ gone

-- A worker that was in the map under this identifier is lost from it.
add : Allocation → AllocationWorker → AllocationWorkers → AllocationWorkers
unfolding replaced
add alloc worker a = record {
  workers = insert alloc.id worker a.workers;
  gone = replaced (lookup alloc.id a.workers) a.gone;
}

remove_found : Allocation → AllocationWorkers → Option AllocationWorker → AllocationWorkers
remove_found alloc a none = a
remove_found alloc a (some worker) = record {
  workers = delete alloc.id a.workers;
  gone = worker ∷ a.gone;
}

remove : Allocation → AllocationWorkers → AllocationWorkers
unfolding remove_found
remove alloc a = remove_found alloc a (lookup alloc.id a.workers)

-- Closing a channel twice panics: `none`.
close_found : Allocation → AllocationWorkers → Option AllocationWorker → Option AllocationWorkers
close_found alloc a none = some a
close_found alloc a (some worker) =
    if worker.stopped
    then none
    else some (record a { workers = insert alloc.id (record worker { stopped = true }) a.workers })

close : Allocation → AllocationWorkers → Option AllocationWorkers
unfolding close_found
close alloc a = close_found alloc a (lookup alloc.id a.workers)

-- One round of the loop of `ReceiveLogs`. `Wait` is left out: it changes nothing here, but it holds
-- the lock until the goroutines of the worker have ended, and keeps the loop waiting for ever if one
-- of them is stuck in its send.
unfoldable pub take_announcement : Announcement → AllocationWorkers → Option AllocationWorkers
unfolding add close remove
take_announcement (added alloc) workers =
    some (add alloc (record { allocation = alloc; stopped = false }) workers)
take_announcement (removed alloc) workers = do
  closed ← close alloc workers
  some (remove alloc closed)

unfoldable pub take_announcements : List Announcement → AllocationWorkers → Option AllocationWorkers
take_announcements [] workers = some workers
take_announcements (a ∷ announcements) workers = do
  next ← take_announcement a workers
  take_announcements announcements next

-- The settings of `NewClient`: the address of Consul that it is given or configured, and the defaults.
pub record NewClient : Type 0 where
  pub client : Client
  pub consul_address : String
  pub nomad_address : String
  pub session_ttl : String
  pub id : String
  pub workers : AllocationWorkers

or_given : String → Option String → String
or_given given none = given
or_given given (some address) = if str_eq address "" then given else address

unfoldable pub new_client : Dict String → String → NewClient
unfolding or_given new_allocation_workers
new_client config consul_addr = record {
  client = record {
    config = config;
    cluster_name = text_or "unknown" (lookup "name" config);
    session_id = "";
  };
  consul_address = or_given consul_addr (lookup "consulAddr" config);
  nomad_address = text_or "" (lookup "nomadAddr" config);
  session_ttl = text_or "10s" (lookup "ttl" config);
  id = text_or "unknown" (lookup "id" config);
  workers = new_allocation_workers;
}
