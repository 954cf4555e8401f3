-- ===== src/Base/Split.antt =====
-- Go's `strings.Split` at a separator of one character, and `strings.Join`.
use Prim.Native.String.append
use Prim.Native.String.{String, [], ◌∷◌, ◌++◌ as ◌+++◌}
use Prim.Native.Char.{Char}
use mathlib.Core.Path.{◌≡◌, refl, ap, ◌∙◌}
use mathlib.Core.Bool.{Bool, true, false}
use mathlib.Core.List.{List, [], ◌∷◌}
use native.Mathlib.Omega.{arith}
use text.Mathlib.Text.{◌==◌ as str_eq}
use text.Mathlib.TextEquality.{eq_iff}
use log_shipper.Base.Tests.{if◌then◌else◌}

abbrev is_char : Char → Char → Bool
is_char c d = str_eq (c ∷ []) (d ∷ [])

grow : Char → List String → List String
grow c [] = (c ∷ []) ∷ []
grow c (part ∷ parts) = (c ∷ part) ∷ parts

unfoldable pub split : String → Char → List String
unfolding grow
split [] sep = [] ∷ []
split (c ∷ s) sep = let rest = split s sep in if is_char c sep then [] ∷ rest else grow c rest

unfoldable pub join : List String → Char → String
join [] sep = []
join (part ∷ []) sep = part
join (part ∷ next ∷ parts) sep = part +++ (sep ∷ join (next ∷ parts) sep)

-- The separator does not occur in the text.
abbrev pub Free : Char → String → Type 0
Free sep [] = Unit
Free sep (c ∷ s) = (is_char c sep ≡ false) × Free sep s

abbrev pub AllFree : Char → List String → Type 0
AllFree sep [] = Unit
AllFree sep (part ∷ parts) = Free sep part × AllFree sep parts

split-Free : (sep : Char) (part : String) → Free sep part → split part sep ≡ part ∷ []
unfolding split
split-Free sep [] h = refl
split-Free sep (c ∷ part) h = rw (h.0, split-Free sep part h.1) refl

split_parted :
    (sep : Char) (part s : String)
    → Free sep part
    → split (part +++ (sep ∷ s)) sep ≡ part ∷ split s sep
unfolding split
split_parted sep [] s h =
    let same : is_char sep sep ≡ true = ground (arith, eq_iff (sep ∷ []) (sep ∷ [])) in
    rw (append.nil (sep ∷ s), same) refl
split_parted sep (c ∷ part) s h =
    rw (append.cons c part (sep ∷ s), h.0, split_parted sep part s h.1) refl

-- Splitting undoes joining, for at least one part and parts without the separator.
pub split-join :
    (sep : Char) (part : String) (parts : List String)
    → AllFree sep (part ∷ parts)
    → split (join (part ∷ parts) sep) sep ≡ part ∷ parts
unfolding join
split-join sep part [] h = split-Free sep part h.0
split-join sep part (next ∷ parts) h =
    split_parted sep part (join (next ∷ parts) sep) h.0
    ∙ ap (◌∷◌ part) (split-join sep next parts h.1)

append-Free :
    (sep : Char) (first second : String)
    → Free sep first
    → Free sep second
    → Free sep (first +++ second)
append-Free sep [] second h k = rw (append.nil second) k
append-Free sep (c ∷ first) second h k =
    rw (append.cons c first second) (h.0, append-Free sep first second h.1 k)

-- A text that is joined with one character does not have another, when no part has it.
pub join-Free :
    (sep other : Char) (parts : List String)
    → is_char sep other ≡ false
    → AllFree other parts
    → Free other (join parts sep)
unfolding join
join-Free sep other [] differ h = tt
join-Free sep other (part ∷ []) differ h = h.0
join-Free sep other (part ∷ next ∷ parts) differ h =
    append-Free other part (sep ∷ join (next ∷ parts) sep) h.0
      (differ, join-Free sep other (next ∷ parts) differ h.1)

pub split-NonEmpty :
    (s : String) (sep : Char)
    → (part : String) × (parts : List String) × (split s sep ≡ part ∷ parts)
unfolding split grow
split-NonEmpty [] sep = ("", [], refl)
split-NonEmpty (c ∷ s) sep = go (is_char c sep) (split s sep)
  where
    go :
        (b : Bool) (rest : List String)
        → (part : String) × (parts : List String) × ((if b then [] ∷ rest else grow c rest)
            ≡ part ∷ parts)
    go true rest = ("", rest, refl)
    go false [] = (c ∷ [], [], refl)
    go false (part ∷ parts) = (c ∷ part, parts, refl)
