-- ===== src/Cmd.antt =====
-- cmd/run.go and connection/connection.go: the connections, and what the broker is told of the
-- sources and targets of the configuration. A map is walked in the order of its list.
pub mod Configured
pub mod Loading
pub mod Dispatch
pub mod Run
mod Tests
use log_shipper.Base.{ℕ, ◌+◌, String, Bool, Option, none, some, List, [], ◌∷◌}
use log_shipper.Base.Dict.{Dict, lookup, insert}
use log_shipper.Limiter.{Float64, RateLimiter, new, init}
use log_shipper.Monitoring.{Details}
use log_shipper.Broker.Target.{BreachBehaviour, RateLimitRule}

pub record RateLimitMode : Type 0 where
  pub mode_type : String
  pub period : String
  pub duration : ℕ

pub record RateLimit : Type 0 where
  pub throughput : String
  pub mode : RateLimitMode
  pub breach_behaviour : BreachBehaviour

pub record ConfigSource : Type 0 where
  pub provider : String
  pub endpoint : String
  pub targets : List String
  pub settings : Dict String

pub record ConfigTarget : Type 0 where
  pub provider : String
  pub endpoint : String
  pub alert_channels : List (Dict (List String))
  pub rate_limit : List RateLimit
  pub settings : Dict String

pub record BrokerSource : Type 0 where
  pub connection_details : Details
  pub config : ConfigSource
  pub targets : List String

pub record BrokerTarget : Type 0 where
  pub connection_details : Details
  pub config : ConfigTarget
  pub rate_limit_rules : List RateLimitRule

-- What parses the texts of sizes and durations, zero on an error, which the code drops; and the
-- clock, read twice for each limiter.
pub record Readers : Type 1 where
  pub to_bytes : String → ℕ
  pub parse_duration : String → ℕ
  pub float : Float64
  pub clock : ℕ → ℕ × ℕ

-- `connection.Manager`: what each connection answers when it is started; `none` is an error.
unfoldable pub add_connection :
    String → Option Details → Dict (Option Details) → Dict (Option Details)
add_connection name conn connections = insert name conn connections

collect : Dict (Option Details) → Dict Details → Option (Dict Details)
collect [] details = some details
collect ((name, none) ∷ connections) details = none
collect ((name, some connection_details) ∷ connections) details =
    collect connections (insert name connection_details details)

unfoldable pub start_connections : Dict (Option Details) → Option (Dict Details)
unfolding collect
start_connections connections = collect connections []

-- The loops of `configureSources` and `configureTargets`, which differ in what they put together.
module _ {C B : Type 0} (assemble : String → C → Details → B) where
  configure_found :
      String → C → Option Details → Dict B → (Dict B → Option (Dict B)) → Option (Dict B)
  configure_found name c none configured next = none
  configure_found name c (some details) configured next =
      next (insert name (assemble name c details) configured)

  configure_each : Dict Details → Dict C → Dict B → Option (Dict B)
  unfolding configure_found
  configure_each connection_details [] configured = some configured
  configure_each connection_details ((name, c) ∷ rest) configured =
      configure_found name c (lookup name connection_details) configured
        (configure_each connection_details rest)

pub assemble_source : String → ConfigSource → Details → BrokerSource
assemble_source name c details = record {
  connection_details = details;
  config = c;
  targets = c.targets;
}

unfoldable pub configure_sources : Dict ConfigSource → Dict Details → Option (Dict BrokerSource)
unfolding configure_each assemble_source
configure_sources sources connection_details =
    configure_each assemble_source connection_details sources []

create_rule : Readers → String → RateLimit → ℕ × ℕ → RateLimitRule
create_rule readers name r now =
    let interval = readers.parse_duration r.mode.period in
    let limiter = new name (readers.to_bytes r.throughput) interval interval r.mode.duration in
    record {
      rate_limiter = (init readers.float now.0 now.1 limiter).0;
      breach_behaviour = r.breach_behaviour;
    }

create_from : Readers → String → List RateLimit → ℕ → List RateLimitRule
unfolding create_rule
create_from readers name [] n = []
create_from readers name (r ∷ rate_limits) n =
    create_rule readers name r (readers.clock n) ∷ create_from readers name rate_limits (n + 1)

unfoldable pub create_rate_limit_rules : Readers → String → List RateLimit → List RateLimitRule
unfolding create_from
create_rate_limit_rules readers name rate_limits = create_from readers name rate_limits 0

pub assemble_target : Readers → String → ConfigTarget → Details → BrokerTarget
assemble_target readers name c details = record {
  connection_details = details;
  config = c;
  rate_limit_rules = create_rate_limit_rules readers name c.rate_limit;
}

unfoldable pub configure_targets :
    Readers → Dict ConfigTarget → Dict Details → Option (Dict BrokerTarget)
unfolding configure_each assemble_target
configure_targets readers targets connection_details =
    configure_each (assemble_target readers) connection_details targets []
