-- ===== src/Nomad/Events.antt =====
-- source/nomad/worker.go: the worker of an allocation, which reports the events of its tasks and
-- remembers in Consul which it has reported.
pub mod Once
pub mod Life
pub mod Reported
mod Tests
use Prim.Native.String.{◌++◌ as ◌+++◌}
use log_shipper.Base.{
  ℕ, ◌/◌, String, Bool, true, false, not, ◌||◌, Option, none, some, List, [], ◌∷◌, ◌++◌,
  if◌then◌else◌, ◌>>=◌,
}
use log_shipper.Base.Decimal.{decimal}
use log_shipper.Base.Dict.{Dict, lookup}
use log_shipper.Base.Utf8.{utf8, trim_space}
use log_shipper.Message.{SourceMessage}
use log_shipper.Nomad.{TaskEvent, Job, Allocation}
use log_shipper.Nomad.Config.{TaskConfig, AllocationConfig, new_from_allocation}

-- Consul's keys at a state `K`, as far as the worker calls it, and the hash of an event; `none` is
-- an error, at which the worker panics. The errors of `Get` and `Put` are dropped.
pub record Ledger (K : Type 0) : Type 0 where
  pub has_key : String → K → Bool
  pub put : String → K → K
  pub hash : TaskEvent → Option ℕ

abbrev pub event_key : String → String → ℕ → String
event_key cluster_name alloc_id hash =
    "log-shipper/nomad/synced-events/"
    +++ (cluster_name +++ ("/allocs/" +++ (alloc_id +++ ("/" +++ decimal hash))))

abbrev event_text : TaskEvent → String
event_text e = "[" +++ (e.event_type +++ ("] " +++ (e.driver_message +++ (" " +++ e.driver_error))))

event_message : Allocation → String → String → TaskEvent → SourceMessage
event_message alloc job_id task e = record {
  id = job_id;
  message = utf8 (trim_space (event_text e));
  meta =
      ("task", task)
      ∷ ("alloc", alloc.id)
      ∷ ("job", job_id)
      ∷ ("group", alloc.task_group)
      ∷ ("event_type", e.event_type)
      ∷ ("driver_message", e.driver_message)
      ∷ ("driver_error", e.driver_error)
      ∷ [];
  attributes =
      some (record { attribute_type = "nomad_task_events"; timestamp = e.time / 1_000_000_000 });
}

-- Messages that were sent, in their order, and the state; `none` is a panic.
abbrev pub Sends : Type 0 → Type 0
Sends K = Option (List SourceMessage × K)

module _ {K : Type 0} (ledger : Ledger K) (cluster_name : String) where
  report_new : Allocation → Option String → String → TaskEvent → String → K → Bool → Sends K
  unfolding event_message
  report_new alloc job_id task e key k true = some ([], k)
  report_new alloc job_id task e key k false = do
    id ← job_id
    some (event_message alloc id task e ∷ [], ledger.put key k)

  report_hashed : Allocation → Option String → String → TaskEvent → K → Option ℕ → Sends K
  unfolding report_new
  report_hashed alloc job_id task e k none = none
  report_hashed alloc job_id task e k (some hash) =
      let key = event_key cluster_name alloc.id hash in
      report_new alloc job_id task e key k (ledger.has_key key k)

  -- One event: a message and a key, unless the key is there.
  report : Allocation → Option String → String → TaskEvent → K → Sends K
  unfolding report_hashed
  report alloc job_id task e k = report_hashed alloc job_id task e k (ledger.hash e)

  -- Two steps of sending, one after the other.
  extend : List SourceMessage → Sends K → Sends K
  extend sent none = none
  extend sent (some (more, k)) = some (sent ++ more, k)

  pub and_then : Sends K → (K → Sends K) → Sends K
  unfolding extend
  and_then none next = none
  and_then (some (sent, k)) next = extend sent (next k)

  pub report_all : Allocation → Option String → String → List TaskEvent → K → Sends K
  unfolding report and_then
  report_all alloc job_id task [] k = some ([], k)
  report_all alloc job_id task (e ∷ events) k =
      and_then (report alloc job_id task e k) (report_all alloc job_id task events)

  -- A task that is switched off, or does without events, is left out.
  watch_task : Allocation → Option String → String → List TaskEvent → TaskConfig → K → Sends K
  unfolding report_all
  watch_task alloc job_id task events config k =
      if not config.enabled || not config.watch_nomad_events
      then some ([], k)
      else report_all alloc job_id task events k

  watch_found :
      Allocation → Option String → String → List TaskEvent → K → Option TaskConfig → Sends K
  unfolding watch_task
  watch_found alloc job_id task events k none = none
  watch_found alloc job_id task events k (some config) =
      watch_task alloc job_id task events config k

  -- The loop over the states of the tasks; a task without a configuration, and a nil name, panic.
  pub watch_tasks :
      Allocation
      → Option String
      → Option String
      → Dict TaskConfig
      → Dict (List TaskEvent)
      → K
      → Sends K
  unfolding watch_found and_then
  watch_tasks alloc job_name job_id configs [] k = some ([], k)
  watch_tasks alloc none job_id configs ((task, events) ∷ states) k = none
  watch_tasks alloc (some name) job_id configs ((task, events) ∷ states) k =
      let task_key = name +++ ("/" +++ (alloc.task_group +++ ("/" +++ task))) in
      and_then (watch_found alloc job_id task events k (lookup task_key configs))
        (watch_tasks alloc (some name) job_id configs states)

  -- One tick of `watchAllocationEvents`, for the allocation that `updateAllocationConfig` got.
  unfoldable pub watch_allocation_events : Allocation → K → Sends K
  unfolding watch_tasks
  watch_allocation_events alloc k = do
    config ← new_from_allocation alloc
    job ← alloc.job
    watch_tasks alloc job.name job.id config.task_configs alloc.task_states k
