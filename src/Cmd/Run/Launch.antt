-- ===== src/Cmd/Run/Launch.antt =====
-- What the command starts, in one equation for every outcome.
use log_shipper.Base.{ℕ, ◌≡◌, refl, ap, ◌∙◌, Bool, ◌||◌, Option, none, some, [], ◌>>=◌}
use log_shipper.Base.Dict.{Dict, IsMap}
use log_shipper.Cmd.{
  BrokerSource, BrokerTarget, start_connections, configure_sources, configure_targets,
  assemble_source, assemble_target,
}
use log_shipper.Cmd.Loading.{Config, loaded, load_config, config_or_exit}
use log_shipper.Cmd.Run.{
  RunCommand, Setting, Broker, Running, source_connection, target_connection, add_connections,
  add_sources, add_targets, start_processes, run, new_broker,
}
use log_shipper.Cmd.Run.Loops.{
  []-Apart, known, add_connections-known, known-IsMap, collected, start_connections-collected,
  configure_sources-all, configure_targets-all, add_sources-append, add_targets-append,
}
use log_shipper.Cmd.Run.Assembled.{
  assembled_all, AllMaps, assembled_all-AllMaps, configured-assembled,
}

abbrev the_running : Broker → Bool → Running
the_running broker http = record { broker = broker; serves_http = http }

bind_ext :
    {A B : Type 0} (o : Option A) (f g : A → Option B)
    → ((x : A) → f x ≡ g x)
    → (o >>= f) ≡ (o >>= g)
bind_ext none f g h = refl
bind_ext (some x) f g h = h x

nothing : {P R : Type 0} (o : Option P) → ◌≡◌ {A = Option R} none (o >>= λ p. none)
nothing none = refl
nothing (some p) = refl

-- Two chains of two steps may take their first steps first.
commute :
    {X Y P Q R : Type 0} (a : Option X) (b : Option Y) (f : X → Option P) (g : Y → Option Q)
    (h : P → Q → R)
    → (a >>= λ x. b >>= λ y. f x >>= λ p. g y >>= λ q. some (h p q))
      ≡ ((a >>= f) >>= λ p. (b >>= g) >>= λ q. some (h p q))
commute none b f g h = refl
commute (some x) none f g h = nothing (f x)
commute (some x) (some y) f g h = refl

abbrev sources_of : Setting → RunCommand → Config → Option (Dict BrokerSource)
sources_of setting c conf =
    assembled_all (source_connection c.consul) setting.start_source assemble_source conf.sources

abbrev targets_of : Setting → Config → Option (Dict BrokerTarget)
targets_of setting conf =
    assembled_all target_connection setting.start_target (assemble_target setting.readers)
      conf.targets

sources_configured :
    (setting : Setting) (c : RunCommand) (conf : Config)
    → IsMap conf.sources
    → (start_connections
          (add_connections (source_connection c.consul) setting.start_source conf.sources [])
        >>= configure_sources conf.sources)
      ≡ sources_of setting c conf
sources_configured setting c conf is_map =
    let connect = source_connection c.consul in
    rw
      (
        add_connections-known connect setting.start_source conf.sources [] is_map
            ([]-Apart _ conf.sources),
        start_connections-collected (known connect setting.start_source conf.sources)
            (known-IsMap connect setting.start_source conf.sources is_map),
      )
      (bind_ext (collected (known connect setting.start_source conf.sources)) _ _
          (λ ds. configure_sources-all conf.sources ds is_map)
        ∙ configured-assembled connect setting.start_source assemble_source conf.sources is_map)

targets_configured :
    (setting : Setting) (conf : Config)
    → IsMap conf.targets
    → (start_connections (add_connections target_connection setting.start_target conf.targets [])
        >>= configure_targets setting.readers conf.targets)
      ≡ targets_of setting conf
targets_configured setting conf is_map =
    rw
      (
        add_connections-known target_connection setting.start_target conf.targets [] is_map
            ([]-Apart _ conf.targets),
        start_connections-collected (known target_connection setting.start_target conf.targets)
            (known-IsMap target_connection setting.start_target conf.targets is_map),
      )
      (bind_ext (collected (known target_connection setting.start_target conf.targets)) _ _
          (λ ds. configure_targets-all setting.readers conf.targets ds is_map)
        ∙ configured-assembled target_connection setting.start_target
            (assemble_target setting.readers) conf.targets is_map)

-- The broker is given maps as they are.
given :
    (workers : ℕ) (http : Bool) (o : Option (Dict BrokerSource)) (o' : Option (Dict BrokerTarget))
    → AllMaps o
    → AllMaps o'
    → ((o >>= λ p. o' >>= λ q. some (add_targets q (add_sources p (new_broker workers))))
        >>= λ broker. some (the_running broker http))
      ≡ (o >>= λ p. o' >>= λ q.
          some (the_running (record { sources = p; targets = q; num_workers = workers }) http))
unfolding new_broker
given workers http none o' mo mo' = refl
given workers http (some p) none mo mo' = refl
given workers http (some p) (some q) mo mo' =
    let b = new_broker workers in
    rw
      (
        add_sources-append p b mo ([]-Apart _ p),
        add_targets-append q (record b { sources = p }) mo' ([]-Apart _ q),
      )
      refl

-- With a configuration that loads, and in which no name stands twice, the command starts a broker that has each
-- configured source and target, in their order, put together from its configuration and what its
-- connection answers, and the configured number of workers, and serves HTTP if the API or the UI is
-- switched on; it fails exactly if a provider is not known or a connection does not start.
pub run_lem :
    (setting : Setting) (c : RunCommand) (conf : Config)
    → load_config setting.files c.config ≡ loaded conf
    → IsMap conf.sources
    → IsMap conf.targets
    → run setting c ≡ (
        sources_of setting c conf >>= λ sources. targets_of setting conf >>= λ targets.
        some (record {
          broker = record { sources = sources; targets = targets; num_workers = c.workers };
          serves_http = c.web || c.ui;
        }))
unfolding run start_processes config_or_exit
run_lem setting c conf read ms mt = rw (read) (
    ap (λ o. o >>= λ broker. some (the_running broker (c.web || c.ui)))
      (commute
          (start_connections
            (add_connections (source_connection c.consul) setting.start_source conf.sources []))
          (start_connections
            (add_connections target_connection setting.start_target conf.targets []))
          (configure_sources conf.sources) (configure_targets setting.readers conf.targets)
          (λ p q. add_targets q (add_sources p (new_broker c.workers)))
        ∙ rw (sources_configured setting c conf ms, targets_configured setting conf mt) refl)
    ∙ given c.workers (c.web || c.ui) (sources_of setting c conf) (targets_of setting conf)
        (assembled_all-AllMaps (source_connection c.consul) setting.start_source assemble_source
          conf.sources ms)
        (assembled_all-AllMaps target_connection setting.start_target
          (assemble_target setting.readers) conf.targets mt))
