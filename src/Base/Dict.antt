-- ===== src/Base/Dict.antt =====
-- Go's `map[string]V` as an association list: a key is written in place or appended.
use Prim.Native.String.{String}
use mathlib.Core.Path.{◌≡◌, refl}
use mathlib.Core.List.{List, [], ◌∷◌}
use mathlib.Core.Option.{Option, none, some}
use native.Mathlib.Omega.{arith}
use text.Mathlib.Text.{◌==◌ as str_eq}
use text.Mathlib.TextEquality.{eq_iff}
use log_shipper.Base.Tests.{if◌then◌else◌}

abbrev pub Dict {ℓ} : Type ℓ → Type ℓ
Dict V = List (String × V)

module _ {ℓ} {V : Type ℓ} where
  unfoldable pub lookup : String → Dict V → Option V
  lookup wanted [] = none
  lookup wanted (entry ∷ rest) = if str_eq entry.0 wanted then some entry.1 else lookup wanted rest

  unfoldable pub insert : String → V → Dict V → Dict V
  insert name item [] = (name, item) ∷ []
  insert name item (entry ∷ rest) =
      if str_eq entry.0 name then (name, item) ∷ rest else entry ∷ insert name item rest

  unfoldable pub delete : String → Dict V → Dict V
  delete name [] = []
  delete name (entry ∷ rest) = if str_eq entry.0 name then rest else entry ∷ delete name rest

  -- No key stands twice.
  abbrev pub IsMap : Dict V → Type ℓ
  IsMap [] = Unit
  IsMap (entry ∷ rest) = (lookup entry.0 rest ≡ none) × IsMap rest

  -- Reading after a write, in one equation for all keys.
  pub lookup-insert :
      (name wanted : String) (item : V) (dict : Dict V)
      → lookup wanted (insert name item dict)
        ≡ (if str_eq name wanted then some item else lookup wanted dict)
  unfolding lookup insert
  lookup-insert name wanted item [] = refl
  lookup-insert name wanted item (entry ∷ rest) = ground (
    arith,
    lookup-insert name wanted item rest,
    eq_iff entry.0 wanted,
    eq_iff entry.0 name,
    eq_iff name wanted,
  )

  pub insert-IsMap :
      (name : String) (item : V) (dict : Dict V) → IsMap dict → IsMap (insert name item dict)
  unfolding lookup insert
  insert-IsMap name item [] h = (refl, tt)
  insert-IsMap name item (entry ∷ rest) h = ground (
    arith,
    insert-IsMap name item rest h.1,
    lookup-insert name entry.0 item rest,
    eq_iff entry.0 name,
    eq_iff name entry.0,
  )

  pub lookup-delete :
      (name wanted : String) (dict : Dict V)
      → IsMap dict
      → lookup wanted (delete name dict) ≡ (if str_eq name wanted then none else lookup wanted dict)
  unfolding lookup delete
  lookup-delete name wanted [] h = ground arith
  lookup-delete name wanted (entry ∷ rest) h = ground (
    arith,
    lookup-delete name wanted rest h.1,
    eq_iff entry.0 wanted,
    eq_iff entry.0 name,
    eq_iff name wanted,
  )

  pub delete-IsMap : (name : String) (dict : Dict V) → IsMap dict → IsMap (delete name dict)
  unfolding lookup delete
  delete-IsMap name [] h = tt
  delete-IsMap name (entry ∷ rest) h =
      ground (
        arith,
        delete-IsMap name rest h.1,
        lookup-delete name entry.0 rest h.1,
        eq_iff name entry.0,
      )
