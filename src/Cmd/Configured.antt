-- ===== src/Cmd/Configured.antt =====
-- What the broker is told of the sources and targets of a configuration.
use log_shipper.Base.{
  ◌≡◌, refl, ap, sym, ◌∙◌, String, Bool, true, false, Option, none, some, [], ◌∷◌, inl, inr,
  Option-cases, arith, str_eq, eq_iff, if◌then◌else◌,
}
use log_shipper.Base.Dict.{Dict, lookup, insert, IsMap, lookup-insert}
use mathlib.Core.Option.{none-ne-some}
use log_shipper.Monitoring.{Details}
use log_shipper.Cmd.{
  ConfigSource, ConfigTarget, BrokerSource, BrokerTarget, Readers, configure_each, configure_found,
  assemble_source, assemble_target, configure_sources, configure_targets,
}

-- Each name has the details of a connection.
abbrev pub Connected : {C : Type 0} → Dict C → Dict Details → Type 0
Connected [] details = Unit
Connected (entry ∷ rest) details =
    ((d : Details) × (lookup entry.0 details ≡ some d)) × Connected rest details

abbrev or_earlier : {B : Type 0} → Option B → Option B → Option B
or_earlier none earlier = earlier
or_earlier (some b) earlier = some b

module _ {C B : Type 0} (assemble : String → C → Details → B) where
  -- What stands under a name, from its configuration and its connection.
  abbrev pub assembled : String → Option C → Option Details → Option B
  assembled name (some c) (some d) = some (assemble name c d)
  assembled name (some c) none = none
  assembled name none d = none

  configure_each_lem :
      (rest : Dict C) (details : Dict Details) (configured : Dict B)
      → IsMap rest
      → Connected rest details
      → (read : Dict B) × (configure_each assemble details rest configured ≡ some read)
        × ((wanted : String)
            → lookup wanted read
              ≡ or_earlier
                  (assembled wanted (lookup wanted rest) (lookup wanted details))
                  (lookup wanted configured))
  unfolding configure_each configure_found lookup
  configure_each_lem [] details configured is_map connected = (configured, refl, λ wanted. refl)
  configure_each_lem ((name, c) ∷ rest) details configured is_map connected =
      let d = connected.0 in
      let later =
        configure_each_lem rest details (insert name (assemble name c d.0) configured) is_map.1
          connected.1 in
      (
        later.0,
        rw (d.1) (later.1),
        λ wanted.
            later.2 wanted
            ∙ rw (lookup-insert name wanted (assemble name c d.0) configured)
                (go wanted (str_eq name wanted) (λ e. (eq_iff name wanted).0 e)),
      )
    where
      go :
          (wanted : String) (same : Bool)
          → (same ≡ true → name ≡ wanted)
          → or_earlier
              (assembled wanted (lookup wanted rest) (lookup wanted details))
              (if same then some (assemble name c connected.0.0) else lookup wanted configured)
            ≡ or_earlier
                (assembled wanted
                  (if same then some c else lookup wanted rest)
                  (lookup wanted details))
                (lookup wanted configured)
      go wanted false h = refl
      go wanted true h =
          let absent = ap (λ x. lookup x rest) (sym (h refl)) ∙ is_map.0 in
          let there = ap (λ x. lookup x details) (sym (h refl)) ∙ connected.0.1 in
          rw (absent, there) (ap (λ x. some (assemble x c connected.0.0)) (h refl))

  configure_each-none :
      (rest : Dict C) (details : Dict Details) (configured : Dict B) (wanted : String)
      → lookup wanted details ≡ none
      → ((c : C) × (lookup wanted rest ≡ some c))
      → configure_each assemble details rest configured ≡ none
  unfolding configure_each configure_found lookup
  configure_each-none [] details configured wanted lost (c, e) = absurd (ground (arith, e))
  configure_each-none ((name, c) ∷ rest) details configured wanted lost there =
      elim (Option-cases (lookup name details)) [
        | inl missing ↦ rw missing refl
        | inr found ↦ rw (found.1) (
            configure_each-none rest details (insert name (assemble name c found.0) configured)
              wanted lost
              (
                there.0,
                elsewhere found.0 found.1 (str_eq name wanted) (eq_iff name wanted).0 there.1,
              ))
      ]
    where
      elsewhere :
          (d : Details)
          → lookup name details ≡ some d
          → (same : Bool) → (same ≡ true → name ≡ wanted)
          → (if same then some c else lookup wanted rest) ≡ some there.0
          → lookup wanted rest ≡ some there.0
      elsewhere d found true h e =
          absurd (none-ne-some d (sym lost ∙ ap (λ x. lookup x details) (sym (h refl)) ∙ found))
      elsewhere d found false h e = e

trim : {B : Type 0} → (o : Option B) → or_earlier o none ≡ o
trim none = refl
trim (some b) = refl

-- With details of a connection for every source and every target, and no name twice, the broker
-- gets for each name the source, or the target with its rules, of that name, and nothing else.
configure_assembles :
    (readers : Readers) (sources : Dict ConfigSource) (targets : Dict ConfigTarget)
    (source_details target_details : Dict Details)
    → IsMap sources
    → IsMap targets
    → Connected sources source_details
    → Connected targets target_details
    → ((read : Dict BrokerSource) × (configure_sources sources source_details ≡ some read)
        × ((name : String)
            → lookup name read
              ≡ assembled assemble_source name (lookup name sources) (lookup name source_details)))
      × ((read : Dict BrokerTarget) × (configure_targets readers targets target_details ≡ some read)
          × ((name : String)
              → lookup name read
                ≡ assembled
                    (assemble_target readers)
                    name
                    (lookup name targets)
                    (lookup name target_details)))
unfolding configure_sources configure_targets lookup
configure_assembles readers sources targets source_details target_details ms mt cs ct =
    let s = configure_each_lem assemble_source sources source_details [] ms cs in
    let t = configure_each_lem (assemble_target readers) targets target_details [] mt ct in
    ((s.0, s.1, λ name. s.2 name ∙ trim _), (t.0, t.1, λ name. t.2 name ∙ trim _))

-- A configured source without the details of a connection makes the configuration of the sources
-- fail, and a configured target without them that of the targets, whatever else is configured.
configure_refuses :
    (readers : Readers) (sources : Dict ConfigSource) (targets : Dict ConfigTarget)
    (details : Dict Details) (source target : String)
    → lookup source details ≡ none
    → lookup target details ≡ none
    → ((c : ConfigSource) × (lookup source sources ≡ some c))
    → ((c : ConfigTarget) × (lookup target targets ≡ some c))
    → (configure_sources sources details ≡ none)
      × (configure_targets readers targets details ≡ none)
unfolding configure_sources configure_targets
configure_refuses readers sources targets details source target lost gone has_source has_target = (
  configure_each-none assemble_source sources details [] source lost has_source,
  configure_each-none (assemble_target readers) targets details [] target gone has_target,
)
