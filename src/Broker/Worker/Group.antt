-- ===== src/Broker/Worker/Group.antt =====
-- broker/worker.go: the manager of the workers. The rounds of a worker are those of Broker.Worker,
-- and the waits of the manager are steps of Broker.System.
use Prim.Native.String.{◌++◌ as append}
use log_shipper.Base.{ℕ, zero, suc, ◌+◌, Bool, true, false, Option, none, some, if◌then◌else◌}
use log_shipper.Base.Decimal.{decimal}
use log_shipper.Monitoring.{Process, Monitor, new_process, set_process_state, add_process}

pub record WorkerManager : Type 0 where
  pub wait_group : ℕ
  pub stop_closed : Bool
  pub monitor : Option Monitor

unfoldable pub new_worker_manager : Option Monitor → WorkerManager
new_worker_manager monitor = record { wait_group = 0; stop_closed = false; monitor = monitor }

-- `if m.Monitor != nil { m.Monitor.AddProcess(...) }`.
register_process : Process → Option Monitor → Option Monitor
register_process p none = none
register_process p (some m) = some (add_process p m)

worker_process : ℕ → Process
worker_process i =
    set_process_state "starting" (new_process (append "worker_" (decimal i)) "worker")

start_worker : ℕ → WorkerManager → WorkerManager
unfolding register_process worker_process
start_worker i m = record m {
  wait_group = m.wait_group + 1;
  monitor = register_process (worker_process i) m.monitor;
}

-- The loop of `Start`, for so many workers from the number `i` on.
start_from : ℕ → ℕ → WorkerManager → WorkerManager
unfolding start_worker
start_from i zero m = m
start_from i (suc n) m = start_from (i + 1) n (start_worker i m)

unfoldable pub start_workers : ℕ → WorkerManager → WorkerManager
unfolding start_from
start_workers workers m = start_from 0 workers m

-- The first half of `Stop`: closing a channel twice panics.
unfoldable pub stop_workers : WorkerManager → Option WorkerManager
stop_workers m = if m.stop_closed then none else some (record m { stop_closed = true })
