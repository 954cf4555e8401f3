-- ===== src/Cmd/Run/Assembled.antt =====
-- What the sources, or the targets, of a configuration should become, beside what the loops of the
-- command make of them.
use log_shipper.Base.{
  ◌≡◌, refl, sym, ap, ◌∙◌, inl, inr, String, Bool, false, Option, none, some, [], ◌∷◌, ◌>>=◌,
  Option-cases, arith, str_eq, eq_iff, if◌then◌else◌,
}
use log_shipper.Base.Dict.{Dict, lookup, IsMap}
use log_shipper.Monitoring.{Details}
use log_shipper.Cmd.Run.Loops.{known, known-none, collected, configured_all}

collected-none :
    (wanted : String) (connections : Dict (Option Details))
    → lookup wanted connections ≡ none
    → (collected connections >>= lookup wanted) ≡ none
unfolding lookup
collected-none wanted [] h = refl
collected-none wanted ((name, none) ∷ rest) h = refl
collected-none wanted ((name, some d) ∷ rest) h = elim (Option-cases (collected rest)) [
  | inl e ↦ rw e refl
  | inr (ds, e) ↦ rw e (ground (arith, e, collected-none wanted rest))
]

collected-absent :
    (wanted : String) (connections : Dict (Option Details)) (ds : Dict Details)
    → lookup wanted connections ≡ none
    → collected connections ≡ some ds
    → lookup wanted ds ≡ none
collected-absent wanted connections ds h e =
    ap (λ o. o >>= lookup wanted) (sym e) ∙ collected-none wanted connections h

configured_all-skip :
    {C B : Type 0} (assemble : String → C → Details → B) (name : String) (d : Details)
    (details : Dict Details) (rest : Dict C)
    → lookup name rest ≡ none
    → configured_all assemble ((name, d) ∷ details) rest ≡ configured_all assemble details rest
unfolding lookup
configured_all-skip assemble name d details [] h = refl
configured_all-skip assemble name d details ((other, c) ∷ rest) h =
    let apart = split (str_eq other name) refl h in
    rw (apart.1, configured_all-skip assemble name d details rest apart.0) refl
  where
    split :
        (same : Bool)
        → str_eq other name ≡ same
        → (if same then some c else lookup name rest) ≡ none
        → (lookup name rest ≡ none) × (str_eq name other ≡ false)
    split same e h = ground (arith, eq_iff other name, eq_iff name other)

-- A map, if there is one.
abbrev pub AllMaps : {B : Type 0} → Option (Dict B) → Type 0
AllMaps none = Unit
AllMaps (some dict) = IsMap dict

module _ {C N B : Type 0} (connection : C → Option N) (begin : String → N → Option Details)
    (assemble : String → C → Details → B) where
  -- What a dictionary of the configuration should become: each entry is put together with what its
  -- connection answers, and a provider that is not known or a start that fails makes it all fail.
  abbrev pub assembled_all : Dict C → Option (Dict B)
  assembled_all [] = some []
  assembled_all ((name, c) ∷ rest) = do
    conn ← connection c
    d ← begin name conn
    later ← assembled_all rest
    some ((name, assemble name c d) ∷ later)

  assembled_all-none :
      (wanted : String) (rest : Dict C)
      → lookup wanted rest ≡ none
      → (assembled_all rest >>= lookup wanted) ≡ none
  unfolding lookup
  assembled_all-none wanted [] h = refl
  assembled_all-none wanted ((name, c) ∷ rest) h = elim (Option-cases (connection c)) [
    | inl e ↦ rw e refl
    | inr (n, e) ↦ elim (Option-cases (begin name n)) [
      | inl f ↦ rw (e, f) refl
      | inr (d, f) ↦ elim (Option-cases (assembled_all rest)) [
        | inl g ↦ rw (e, f, g) refl
        | inr (later, g) ↦ rw (e, f, g) (ground (arith, g, assembled_all-none wanted rest))
      ]
    ]
  ]

  pub configured-assembled :
      (conf : Dict C)
      → IsMap conf
      → (collected (known connection begin conf) >>= λ ds. configured_all assemble ds conf)
        ≡ assembled_all conf
  unfolding lookup
  configured-assembled [] is_map = refl
  configured-assembled ((name, c) ∷ rest) is_map = elim (Option-cases (connection c)) [
    | inl e ↦ rw e (unknown (collected (known connection begin rest)) refl)
    | inr (n, e) ↦ elim (Option-cases (begin name n)) [
      | inl f ↦ rw (e, f) refl
      | inr (d, f) ↦
          rw (e, f)
            (started d (collected (known connection begin rest))
              (configured-assembled rest is_map.1))
    ]
  ]
    where
      unknown :
          (o : Option (Dict Details))
          → collected (known connection begin rest) ≡ o
          → (o >>= λ ds. configured_all assemble ds ((name, c) ∷ rest)) ≡ none
      unknown none e = refl
      unknown (some ds) e =
          let absent = known-none connection begin name rest is_map.0 in
          rw (collected-absent name (known connection begin rest) ds absent e) refl

      started :
          (d : Details) (o : Option (Dict Details))
          → (o >>= λ ds. configured_all assemble ds rest) ≡ assembled_all rest
          → ((o >>= λ ds. some ((name, d) ∷ ds)) >>= λ ds.
              configured_all assemble ds ((name, c) ∷ rest))
            ≡ (assembled_all rest >>= λ later. some ((name, assemble name c d) ∷ later))
      started d none h = ap (λ o. o >>= λ later. some ((name, assemble name c d) ∷ later)) h
      started d (some ds) h =
          rw ((eq_iff name name).1 refl, configured_all-skip assemble name d ds rest is_map.0)
            (ap (λ o. o >>= λ later. some ((name, assemble name c d) ∷ later)) h)

  pub assembled_all-AllMaps : (rest : Dict C) → IsMap rest → AllMaps (assembled_all rest)
  assembled_all-AllMaps [] is_map = tt
  assembled_all-AllMaps ((name, c) ∷ rest) is_map = elim (Option-cases (connection c)) [
    | inl e ↦ rw e tt
    | inr (n, e) ↦ elim (Option-cases (begin name n)) [
      | inl f ↦ rw (e, f) tt
      | inr (d, f) ↦
          rw (e, f)
            (go d (assembled_all rest) (assembled_all-none name rest is_map.0)
              (assembled_all-AllMaps rest is_map.1))
    ]
  ]
    where
      go :
          (d : Details) (o : Option (Dict B))
          → (o >>= lookup name) ≡ none
          → AllMaps o
          → AllMaps (o >>= λ later. some ((name, assemble name c d) ∷ later))
      go d none h is_map = tt
      go d (some later) h is_map = (h, is_map)
