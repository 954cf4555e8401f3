-- ===== src/Nomad/Events/Life.antt =====
-- source/nomad/worker.go: the life of a worker, from its start to the end of the loop of
-- watchAllocationEvents.
use log_shipper.Base.{String, Bool, true, false, ◌&&◌, Option, none, some, List, [], ◌∷◌, ◌>>=◌}
use log_shipper.Nomad.{Allocation}
use log_shipper.Nomad.Config.{AllocationConfig, new_from_allocation}
use log_shipper.Nomad.Events.{Ledger, Sends, and_then, watch_allocation_events}

-- What the worker keeps: its cluster, its allocation, and the configuration, which is nil at first.
pub record Watcher : Type 0 where
  pub cluster_name : String
  pub allocation : Allocation
  pub allocation_config : Option AllocationConfig

unfoldable pub new_allocation_worker : String → Allocation → Watcher
new_allocation_worker cluster_name alloc = record {
  cluster_name = cluster_name;
  allocation = alloc;
  allocation_config = none;
}

-- `updateAllocationConfig` for what Nomad says of the allocation, or its error. `none` is a panic.
unfoldable pub update_allocation_config : Option Allocation → Watcher → Option (Bool × Watcher)
update_allocation_config none w = some (false, w)
update_allocation_config (some alloc) w = do
  config ← new_from_allocation alloc
  some (true, record w { allocation_config = some config })

-- Whether the goroutines of the worker are started. The configuration is read before it is asked
-- whether there is one.
started : Bool → Watcher → Option AllocationConfig → Option (Bool × Watcher)
started got w none = none
started got w (some config) = some (config.job_config.enabled && got, w)

unfoldable pub start : Option Allocation → Watcher → Option (Bool × Watcher)
unfolding started
start info w = do
  updated ← update_allocation_config info w
  started updated.0 updated.1 updated.1.allocation_config

-- What the loop sees: a tick, with what Nomad says then, the close of `Stop`, and what others do to
-- Consul between ticks.
pub data Happening (K : Type 0) : Type 0 where
  ticks : Option Allocation → Happening K
  stops : Happening K
  others : (K → K) → Happening K

module _ {K : Type 0} (ledger : Ledger K) (cluster_name : String) where
  -- The messages that the loop sends, and the keys. An error of Nomad ends it, and so does a stop.
  unfoldable pub watch : List (Happening K) → K → Sends K
  watch [] k = some ([], k)
  watch (ticks none ∷ rest) k = some ([], k)
  watch (ticks (some alloc) ∷ rest) k =
      and_then ledger cluster_name (watch_allocation_events ledger cluster_name alloc k)
        (watch rest)
  watch (stops ∷ rest) k = some ([], k)
  watch (others change ∷ rest) k = watch rest (change k)
