-- ===== src/Nomad/Workers/Tests.antt =====
-- Workers that are announced twice, and the settings of a client.
use log_shipper.Base.{◌≡◌, refl, String, true, false, none, some, [], ◌∷◌}
use log_shipper.Base.Dict.{lookup, insert, delete}
use log_shipper.Nomad.{Allocation}
use log_shipper.Nomad.Pool.{added, removed}
use log_shipper.Nomad.Workers.{
  take_announcement, take_announcements, new_client, new_allocation_workers,
}

abbrev alloc : String → Allocation
alloc id = record { id = id; task_group = ""; task_states = []; job = none }

-- An allocation that is announced twice gets two workers, and the first is never stopped.
twice_test :
    take_announcements
      (added (alloc "a") ∷ added (alloc "a") ∷ removed (alloc "a") ∷ [])
      new_allocation_workers
    ≡ some (record {
      workers = [];
      gone =
          record { allocation = alloc "a"; stopped = true }
          ∷ record { allocation = alloc "a"; stopped = false }
          ∷ [];
    })
unfolding take_announcements take_announcement lookup insert delete new_allocation_workers
twice_test = refl

defaults_test :
    (new_client (("consulAddr", "") ∷ []) "127.0.0.1:8500").consul_address ≡ "127.0.0.1:8500"
unfolding new_client lookup
defaults_test = refl
