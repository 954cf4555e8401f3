-- ===== src/Nomad/Pool/Tests.antt =====
-- The pool at two allocations, one of them new and one gone.
use log_shipper.Base.{◌≡◌, refl, String, none, [], ◌∷◌}
use log_shipper.Nomad.{Allocation}
use log_shipper.Nomad.Pool.{
  AllocationPool, added, removed, slice_contains_allocation, new_allocation_pool, sync,
}

abbrev alloc : String → Allocation
alloc id = record { id = id; task_group = ""; task_states = []; job = none }

abbrev pool : AllocationPool
pool = record { allocations = alloc "a" ∷ alloc "b" ∷ [] }

sync_test :
    (sync (alloc "b" ∷ alloc "c" ∷ []) pool).0 ≡ added (alloc "c") ∷ removed (alloc "a") ∷ []
unfolding sync slice_contains_allocation
sync_test = refl

first_sync_test :
    (sync (alloc "b" ∷ alloc "b" ∷ []) new_allocation_pool).0
    ≡ added (alloc "b") ∷ added (alloc "b") ∷ []
unfolding sync slice_contains_allocation new_allocation_pool
first_sync_test = refl
