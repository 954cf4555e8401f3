-- ===== src/Nomad/Workers/Ticks/Tests.antt =====
-- Two ticks of a client: an allocation goes and another comes.
use log_shipper.Base.{◌≡◌, refl, true, false, none, some, List, [], ◌∷◌}
use log_shipper.Base.Dict.{lookup, insert, delete}
use log_shipper.Nomad.{Allocation}
use log_shipper.Nomad.Pool.{sync, slice_contains_allocation, new_allocation_pool}
use log_shipper.Nomad.Failover.{Cluster, returns, get_allocations}
use log_shipper.Nomad.Workers.{
  new_client, take_announcements, take_announcement, new_allocation_workers,
}
use log_shipper.Nomad.Workers.Ticks.{
  Clocks, create_session, tick_interval, tick, ticks, receive_logs,
}
use log_shipper.Nomad.Workers.Ticks.Listed.{Follows, last_read, receive_logs-Follows}

abbrev alloc : Allocation
alloc = record { id = "a"; task_group = ""; task_states = []; job = none }

abbrev other : Allocation
other = record alloc { id = "b" }

-- Its state is what Nomad lists at the one node.
abbrev cluster : Cluster (List Allocation)
cluster = record {
  get = λ key k. none;
  acquire = λ p k. (some true, k);
  release = λ p k. k;
  delete = λ key k. k;
  sleep = λ k. k;
  node_ids = λ k. some ("n1" ∷ []);
  node_allocations = λ node k. some k;
}

abbrev clocks : Clocks
clocks = record { create = λ name ttl. some "s"; parse_duration = λ s. some 10_000_000_000 }

abbrev run : List (List Allocation)
run = (alloc ∷ []) ∷ (other ∷ []) ∷ []

receive_logs_test :
    receive_logs cluster clocks 0 run (new_client [] "")
    ≡ returns (record {
      pool = record { allocations = other ∷ [] };
      workers = record {
        workers = ("b", record { allocation = other; stopped = false }) ∷ [];
        gone = record { allocation = alloc; stopped = true } ∷ [];
      };
    })
unfolding receive_logs create_session tick_interval ticks tick new_client get_allocations sync
    slice_contains_allocation take_announcements take_announcement lookup insert delete
    new_allocation_pool new_allocation_workers
receive_logs_test = refl

receive_logs-Follows_example :
    Follows
      (last_read cluster (record ((new_client [] "").client) { session_id = "s" }) 0 [] run)
      (receive_logs cluster clocks 0 run (new_client [] ""))
unfolding tick_interval get_allocations new_client lookup
receive_logs-Follows_example =
    receive_logs-Follows cluster clocks [] "" "s" 5_000_000_000 0 run refl refl
      ((refl, tt), ((refl, tt), tt))
