-- ===== src/Utils.antt =====
-- utils/strings.go: the membership tests on slices of strings and of uint64.
use log_shipper.Base.{
  ℕ, ◌≡◌, ◌↔◌, ◌⊎◌, arith, String, Bool, true, false, List, [], ◌∷◌, if◌then◌else◌, str_eq, eq_iff,
  ◌==◌,
}

-- An item of the list is this one.
abbrev Among : {A : Type 0} → A → List A → Type 0
Among x [] = ⊥
Among x (item ∷ items) = (item ≡ x) ⊎ Among x items

unfoldable in_slice_of_strings : String → List String → Bool
in_slice_of_strings s [] = false
in_slice_of_strings s (item ∷ items) =
    let rest = in_slice_of_strings s items in if str_eq item s then true else rest

unfoldable in_slice_of_uint64 : ℕ → List ℕ → Bool
in_slice_of_uint64 u [] = false
in_slice_of_uint64 u (item ∷ items) =
    let rest = in_slice_of_uint64 u items in if item == u then true else rest

-- Each test says whether the value is among the items.
in_slice_of_strings-Among :
    (s : String) (items : List String) → (in_slice_of_strings s items ≡ true) ↔ Among s items
unfolding in_slice_of_strings
in_slice_of_strings-Among s [] = ground arith
in_slice_of_strings-Among s (item ∷ items) =
    ground (arith, eq_iff item s, in_slice_of_strings-Among s items)

in_slice_of_uint64-Among :
    (u : ℕ) (items : List ℕ) → (in_slice_of_uint64 u items ≡ true) ↔ Among u items
unfolding in_slice_of_uint64
in_slice_of_uint64-Among u [] = ground arith
in_slice_of_uint64-Among u (item ∷ items) = ground (arith, in_slice_of_uint64-Among u items)
