-- ===== src/Nomad/Pool/Announcements.antt =====
-- What a receiver of the announcements of a pool knows.
use log_shipper.Base.{
  ◌≡◌, refl, sym, ◌∙◌, ◌↔◌, ap, arith, String, Bool, true, false, not, ◌&&◌, ◌||◌, List, [], ◌∷◌,
  ◌++◌, str_eq, eq_iff, Bool-cases, inl, inr,
}
use log_shipper.Nomad.{Allocation}
use log_shipper.Nomad.Pool.{
  AllocationPool, Announcement, added, removed, slice_contains_allocation, announce_added,
  announce_removed, sync,
}

abbrev pub has_id : String → List Allocation → Bool
has_id x [] = false
has_id x (a ∷ allocations) = str_eq a.id x || has_id x allocations

-- Whether a receiver that follows the announcements knows the identifier `x` at their end.
abbrev pub knows : String → List Announcement → Bool → Bool
knows x [] known = known
knows x (added a ∷ announcements) known = knows x announcements (str_eq a.id x || known)
knows x (removed a ∷ announcements) known = knows x announcements (not (str_eq a.id x) && known)

slice_contains_allocation-has_id :
    (a : Allocation) (allocations : List Allocation)
    → slice_contains_allocation a allocations ≡ has_id a.id allocations
unfolding slice_contains_allocation
slice_contains_allocation-has_id a [] = refl
slice_contains_allocation-has_id a (b ∷ allocations) =
    ap (λ z. str_eq b.id a.id || z) (slice_contains_allocation-has_id a allocations)

knows-append :
    (x : String) (first second : List Announcement) (known : Bool)
    → knows x (first ++ second) known ≡ knows x second (knows x first known)
knows-append x [] second known = refl
knows-append x (added a ∷ first) second known = knows-append x first second _
knows-append x (removed a ∷ first) second known = knows-append x first second _

knows-announce_added :
    (x : String) (allocations : List Allocation) (p : AllocationPool) (known : Bool)
    → knows x (announce_added allocations p) known
      ≡ known || (has_id x allocations && not (has_id x p.allocations))
unfolding announce_added
knows-announce_added x [] p known = ground arith
knows-announce_added x (a ∷ allocations) p known = ground (
  arith,
  knows-announce_added x allocations p known,
  knows-announce_added x allocations p (str_eq a.id x || known),
  slice_contains_allocation-has_id a p.allocations,
  eq_iff a.id x,
)

knows-announce_removed :
    (x : String) (old allocations : List Allocation) (known : Bool)
    → knows x (announce_removed old allocations) known
      ≡ known && not (has_id x old && not (has_id x allocations))
unfolding announce_removed
knows-announce_removed x [] allocations known = ground arith
knows-announce_removed x (a ∷ old) allocations known = ground (
  arith,
  knows-announce_removed x old allocations known,
  knows-announce_removed x old allocations (not (str_eq a.id x) && known),
  slice_contains_allocation-has_id a allocations,
  eq_iff a.id x,
)

-- A receiver that knew the identifiers of the pool, and follows what `Sync` announces in the order
-- it is announced, knows exactly the identifiers of the list that the pool was synchronised with;
-- that list is what the pool then holds.
pub sync-knows :
    (allocations : List Allocation) (p : AllocationPool)
    → ((x : String)
        → knows x (sync allocations p).0 (has_id x p.allocations) ≡ has_id x allocations)
      × ((sync allocations p).1.allocations ≡ allocations)
unfolding sync
sync-knows allocations p = (
  λ x.
      knows-append x (announce_added allocations p) _ _
      ∙ ground (
        arith,
        knows-announce_added x allocations p (has_id x p.allocations),
        knows-announce_removed x p.allocations allocations
            (knows x (announce_added allocations p) (has_id x p.allocations)),
      ),
  refl,
)

-- No identifier is twice in the list.
abbrev pub NoneTwice : List Allocation → Type 0
NoneTwice [] = Unit
NoneTwice (a ∷ allocations) = (has_id a.id allocations ≡ false) × NoneTwice allocations

-- To a receiver with this knowledge, no announcement adds what it knows.
abbrev pub AllNew : (String → Bool) → List Announcement → Type 0
AllNew known [] = Unit
AllNew known (added a ∷ announcements) =
    (known a.id ≡ false) × AllNew (λ x. str_eq a.id x || known x) announcements
AllNew known (removed a ∷ announcements) =
    AllNew (λ x. not (str_eq a.id x) && known x) announcements

announce_removed-AllNew :
    (old allocations : List Allocation) (known : String → Bool)
    → AllNew known (announce_removed old allocations)
unfolding announce_removed
announce_removed-AllNew [] allocations known = tt
announce_removed-AllNew (a ∷ old) allocations known =
    elim (Bool-cases (slice_contains_allocation a allocations)) [
      | inl e ↦ rw e (announce_removed-AllNew old allocations known)
      | inr e ↦ rw e (announce_removed-AllNew old allocations _)
    ]

announce_added-AllNew :
    (allocations rest : List Allocation) (p : AllocationPool) (known : String → Bool)
    → NoneTwice rest
    → ((x : String) → has_id x rest ≡ true → has_id x p.allocations ≡ false → known x ≡ false)
    → AllNew known (announce_added rest p ++ announce_removed p.allocations allocations)
unfolding announce_added
announce_added-AllNew allocations [] p known apart new =
    announce_removed-AllNew p.allocations allocations known
announce_added-AllNew allocations (a ∷ rest) p known apart new =
    let here = slice_contains_allocation-has_id a p.allocations in
    let later = λ (x : String) (h : has_id x rest ≡ true) (e : has_id x p.allocations ≡ false).
      new x (ground (arith, h)) e in
    elim (Bool-cases (slice_contains_allocation a p.allocations)) [
      | inl e ↦ rw e (announce_added-AllNew allocations rest p known apart.1 later)
      | inr e ↦ rw e (
        new a.id (ground (arith, eq_iff a.id a.id)) (sym here ∙ e),
        announce_added-AllNew allocations rest p (λ x. str_eq a.id x || known x) apart.1
            (λ x h k. ground (arith, h, later x h k, eq_iff a.id x, apart.0)),
      )
    ]

-- What `Sync` announces for a list that has no identifier twice adds nothing that a receiver who
-- followed the pool knows.
pub sync-AllNew :
    (allocations : List Allocation) (p : AllocationPool)
    → NoneTwice allocations
    → AllNew (λ x. has_id x p.allocations) (sync allocations p).0
unfolding sync
sync-AllNew allocations p apart =
    announce_added-AllNew allocations allocations p (λ x. has_id x p.allocations) apart (λ x h e. e)

announce_added_known :
    (allocations : List Allocation) (p : AllocationPool)
    → ((x : String) → has_id x allocations ≡ true → has_id x p.allocations ≡ true)
    → announce_added allocations p ≡ []
unfolding announce_added
announce_added_known [] p h = refl
announce_added_known (a ∷ allocations) p h =
    rw (slice_contains_allocation-has_id a p.allocations, h a.id (ground (arith, eq_iff a.id a.id)))
      (announce_added_known allocations p (λ x e. h x (ground (arith, e))))

announce_removed_kept :
    (old allocations : List Allocation)
    → ((x : String) → has_id x old ≡ true → has_id x allocations ≡ true)
    → announce_removed old allocations ≡ []
unfolding announce_removed
announce_removed_kept [] allocations h = refl
announce_removed_kept (a ∷ old) allocations h =
    rw (slice_contains_allocation-has_id a allocations, h a.id (ground (arith, eq_iff a.id a.id)))
      (announce_removed_kept old allocations (λ x e. h x (ground (arith, e))))

-- `Sync` announces nothing exactly when the list has the identifiers of the pool, in whatever order
-- and however often.
sync_silent_iff :
    (allocations : List Allocation) (p : AllocationPool)
    → ((sync allocations p).0 ≡ []) ↔ ((x : String) → has_id x allocations ≡ has_id x p.allocations)
unfolding sync
sync_silent_iff allocations p = (
  λ silent x.
      sym ((sync-knows allocations p).0 x)
      ∙ ap (λ announcements. knows x announcements (has_id x p.allocations)) silent,
  λ h.
      rw
        (
          announce_added_known allocations p (λ x e. sym (h x) ∙ e),
          announce_removed_kept p.allocations allocations (λ x e. h x ∙ e),
        )
        refl,
)
