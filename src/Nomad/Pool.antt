-- ===== src/Nomad/Pool.antt =====
-- source/nomad/pool.go: the pool of known allocations, and what it announces on its two channels.
pub mod Announcements
mod Tests
use log_shipper.Base.{String, Bool, true, false, List, [], ◌∷◌, ◌++◌, if◌then◌else◌, ◌||◌, str_eq}
use log_shipper.Nomad.{Allocation}

pub record AllocationPool : Type 0 where
  pub allocations : List Allocation

-- What a receiver of `AllocationAdded` and `AllocationRemoved` gets.
pub data Announcement : Type 0 where
  added removed : Allocation → Announcement

unfoldable pub new_allocation_pool : AllocationPool
new_allocation_pool = record { allocations = [] }

unfoldable pub slice_contains_allocation : Allocation → List Allocation → Bool
slice_contains_allocation allocation [] = false
slice_contains_allocation allocation (i ∷ allocations) =
    str_eq i.id allocation.id || slice_contains_allocation allocation allocations

abbrev pub has : Allocation → AllocationPool → Bool
has allocation p = slice_contains_allocation allocation p.allocations

abbrev set : List Allocation → AllocationPool → AllocationPool
set allocations p = record p { allocations = allocations }

-- The two loops of `Sync`.
announce_added : List Allocation → AllocationPool → List Announcement
announce_added [] p = []
announce_added (alloc ∷ allocations) p =
    let rest = announce_added allocations p in if has alloc p then rest else added alloc ∷ rest

announce_removed : List Allocation → List Allocation → List Announcement
announce_removed [] allocations = []
announce_removed (alloc ∷ old) allocations =
    let rest = announce_removed old allocations in
    if slice_contains_allocation alloc allocations then rest else removed alloc ∷ rest

unfoldable pub sync : List Allocation → AllocationPool → List Announcement × AllocationPool
unfolding announce_added announce_removed
sync allocations p =
    (announce_added allocations p ++ announce_removed p.allocations allocations, set allocations p)
