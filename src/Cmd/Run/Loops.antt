-- ===== src/Cmd/Run/Loops.antt =====
-- The loops that fill a map with names that are all different: each appends.
use log_shipper.Base.{
  inl, inr, ◌≡◌, refl, sym, ap, ◌∙◌, String, Option, none, some, List, [], ◌∷◌, ◌++◌, append-nil,
  append_assoc, ◌>>=◌, Option-cases, arith, eq_iff,
}
use log_shipper.Base.Dict.{Dict, lookup, insert, IsMap, lookup-insert}
use log_shipper.Monitoring.{Details}
use log_shipper.Cmd.{
  add_connection, collect, configure_each, configure_found, ConfigSource, ConfigTarget,
  BrokerSource, BrokerTarget, Readers, assemble_source, assemble_target, configure_sources,
  configure_targets, start_connections,
}
use log_shipper.Cmd.Run.{Broker, add_known, add_connections, add_sources, add_targets}

-- No key of the second dictionary stands in the first.
abbrev pub Apart : {A B : Type 0} → Dict A → Dict B → Type 0
Apart acc [] = Unit
Apart acc (entry ∷ rest) = (lookup entry.0 acc ≡ none) × Apart acc rest

insert-append :
    {A : Type 0} (name : String) (item : A) (acc : Dict A)
    → lookup name acc ≡ none
    → insert name item acc ≡ acc ++ (name, item) ∷ []
unfolding lookup insert
insert-append name item [] h = refl
insert-append name item (entry ∷ acc) h = ground (arith, insert-append name item acc)

appended :
    {A : Type 0} (acc : List A) (x : A) (o : Option (List A))
    → (o >>= λ xs. some ((acc ++ x ∷ []) ++ xs))
      ≡ ((o >>= λ xs. some (x ∷ xs)) >>= λ xs. some (acc ++ xs))
appended acc x none = refl
appended acc x (some xs) = ap some (append_assoc acc (x ∷ []) xs)

insert-Apart :
    {A B : Type 0} (name : String) (item : A) (acc : Dict A) (rest : Dict B)
    → lookup name rest ≡ none
    → Apart acc rest
    → Apart (insert name item acc) rest
unfolding lookup
insert-Apart name item acc [] h apart = tt
insert-Apart name item acc (entry ∷ rest) h apart = ground (
  arith,
  insert-Apart name item acc rest,
  lookup-insert name entry.0 item acc,
  eq_iff entry.0 name,
  eq_iff name entry.0,
)

module _ {C N : Type 0} (connection : C → Option N) (begin : String → N → Option Details) where
  -- What the connections of the known providers answer, in order.
  abbrev pub known_found : String → Option N → Dict (Option Details) → Dict (Option Details)
  known_found name none later = later
  known_found name (some n) later = (name, begin name n) ∷ later

  abbrev pub known : Dict C → Dict (Option Details)
  known [] = []
  known ((name, c) ∷ rest) = known_found name (connection c) (known rest)

  pub add_connections-known :
      (rest : Dict C) (connections : Dict (Option Details))
      → IsMap rest
      → Apart connections rest
      → add_connections connection begin rest connections ≡ connections ++ known rest
  unfolding add_connections add_known add_connection
  add_connections-known [] connections is_map apart = sym (append-nil connections)
  add_connections-known ((name, c) ∷ rest) connections is_map apart =
      go (connection c) (add_connections-known rest)
    where
      go :
          (found : Option N)
          → ((others : Dict (Option Details))
              → IsMap rest
              → Apart others rest
              → add_connections connection begin rest others ≡ others ++ known rest)
          → add_connections connection begin rest
              (add_known connection begin name found connections)
            ≡ connections ++ known_found name found (known rest)
      go none later = later connections is_map.1 apart.1
      go (some n) later =
          later (insert name (begin name n) connections) is_map.1
            (insert-Apart name (begin name n) connections rest is_map.0 apart.1)
          ∙ rw (insert-append name (begin name n) connections apart.0)
              (append_assoc connections ((name, begin name n) ∷ []) (known rest))

  pub known-none :
      (wanted : String) (rest : Dict C)
      → lookup wanted rest ≡ none
      → lookup wanted (known rest) ≡ none
  unfolding lookup
  known-none wanted [] h = refl
  known-none wanted ((name, c) ∷ rest) h = elim (Option-cases (connection c)) [
    | inl e ↦ rw e (ground (arith, known-none wanted rest))
    | inr (n, e) ↦ rw e (ground (arith, known-none wanted rest))
  ]

  pub known-IsMap : (rest : Dict C) → IsMap rest → IsMap (known rest)
  known-IsMap [] h = tt
  known-IsMap ((name, c) ∷ rest) h = elim (Option-cases (connection c)) [
    | inl e ↦ rw e (known-IsMap rest h.1)
    | inr (n, e) ↦ rw e (known-none name rest h.0, known-IsMap rest h.1)
  ]

-- What all the connections answer, if none fails.
abbrev pub collected : Dict (Option Details) → Option (Dict Details)
collected [] = some []
collected ((name, none) ∷ rest) = none
collected ((name, some d) ∷ rest) = collected rest >>= λ ds. some ((name, d) ∷ ds)

collect-collected :
    (connections : Dict (Option Details)) (acc : Dict Details)
    → IsMap connections
    → Apart acc connections
    → collect connections acc ≡ (collected connections >>= λ ds. some (acc ++ ds))
unfolding collect
collect-collected [] acc is_map apart = ap some (sym (append-nil acc))
collect-collected ((name, none) ∷ rest) acc is_map apart = refl
collect-collected ((name, some d) ∷ rest) acc is_map apart =
    collect-collected rest (insert name d acc) is_map.1
      (insert-Apart name d acc rest is_map.0 apart.1)
    ∙ rw (insert-append name d acc apart.0) (appended acc (name, d) (collected rest))

bind-some : {A : Type 0} (o : Option A) → (o >>= λ x. some x) ≡ o
bind-some none = refl
bind-some (some x) = refl

pub []-Apart : (A : Type 0) {B : Type 0} (rest : Dict B) → Apart {A = A} [] rest
unfolding lookup
[]-Apart A [] = tt
[]-Apart A (entry ∷ rest) = (refl, []-Apart A rest)

pub start_connections-collected :
    (connections : Dict (Option Details))
    → IsMap connections
    → start_connections connections ≡ collected connections
unfolding start_connections
start_connections-collected connections is_map =
    collect-collected connections [] is_map ([]-Apart _ connections)
    ∙ bind-some (collected connections)

module _ {C B : Type 0} (assemble : String → C → Details → B) (details : Dict Details) where
  abbrev pub configured_all : Dict C → Option (Dict B)
  configured_all [] = some []
  configured_all ((name, c) ∷ rest) = do
    d ← lookup name details
    later ← configured_all rest
    some ((name, assemble name c d) ∷ later)

  configure_each-all :
      (rest : Dict C) (acc : Dict B)
      → IsMap rest
      → Apart acc rest
      → configure_each assemble details rest acc
        ≡ (configured_all rest >>= λ later. some (acc ++ later))
  unfolding configure_each configure_found
  configure_each-all [] acc is_map apart = ap some (sym (append-nil acc))
  configure_each-all ((name, c) ∷ rest) acc is_map apart =
      go (lookup name details) (configure_each-all rest)
    where
      go :
          (found : Option Details)
          → ((others : Dict B)
              → IsMap rest
              → Apart others rest
              → configure_each assemble details rest others
                ≡ (configured_all rest >>= λ later. some (others ++ later)))
          → configure_found assemble name c found acc (configure_each assemble details rest) ≡ (
              (found >>= λ d.
              configured_all rest >>= λ later. some ((name, assemble name c d) ∷ later))
              >>= λ all. some (acc ++ all))
      go none later = refl
      go (some d) later =
          later (insert name (assemble name c d) acc) is_map.1
            (insert-Apart name (assemble name c d) acc rest is_map.0 apart.1)
          ∙ rw (insert-append name (assemble name c d) acc apart.0)
              (appended acc (name, assemble name c d) (configured_all rest))

pub configure_sources-all :
    (sources : Dict ConfigSource) (details : Dict Details)
    → IsMap sources
    → configure_sources sources details ≡ configured_all assemble_source details sources
unfolding configure_sources
configure_sources-all sources details is_map =
    configure_each-all assemble_source details sources [] is_map ([]-Apart _ sources)
    ∙ bind-some (configured_all assemble_source details sources)

pub configure_targets-all :
    (readers : Readers) (targets : Dict ConfigTarget) (details : Dict Details)
    → IsMap targets
    → configure_targets readers targets details
      ≡ configured_all (assemble_target readers) details targets
unfolding configure_targets
configure_targets-all readers targets details is_map =
    configure_each-all (assemble_target readers) details targets [] is_map ([]-Apart _ targets)
    ∙ bind-some (configured_all (assemble_target readers) details targets)

-- `AddSource` and `AddTarget` for each of a dictionary.
pub add_sources-append :
    (sources : Dict BrokerSource) (b : Broker)
    → IsMap sources
    → Apart b.sources sources
    → add_sources sources b ≡ record b { sources = b.sources ++ sources }
unfolding add_sources
add_sources-append [] b is_map apart = rw (append-nil b.sources) refl
add_sources-append ((name, s) ∷ sources) b is_map apart =
    add_sources-append sources (record b { sources = insert name s b.sources }) is_map.1
      (insert-Apart name s b.sources sources is_map.0 apart.1)
    ∙ rw (insert-append name s b.sources apart.0, append_assoc b.sources ((name, s) ∷ []) sources)
        refl

pub add_targets-append :
    (targets : Dict BrokerTarget) (b : Broker)
    → IsMap targets
    → Apart b.targets targets
    → add_targets targets b ≡ record b { targets = b.targets ++ targets }
unfolding add_targets
add_targets-append [] b is_map apart = rw (append-nil b.targets) refl
add_targets-append ((name, t) ∷ targets) b is_map apart =
    add_targets-append targets (record b { targets = insert name t b.targets }) is_map.1
      (insert-Apart name t b.targets targets is_map.0 apart.1)
    ∙ rw (insert-append name t b.targets apart.0, append_assoc b.targets ((name, t) ∷ []) targets)
        refl
