-- ===== src/Web/Tests.antt =====
-- The views of a monitor with a source, a target and a worker, and of nodes that cannot be asked.
use log_shipper.Base.{ℕ, ◌≡◌, refl, inl, inr, true, none, some, List, [], ◌∷◌}
use log_shipper.Base.Decimal.{decimal}
use log_shipper.Limiter.{new, is_over_limit, is_average_over_limit, get_current, increment}
use log_shipper.Monitoring.{
  Monitor, new_connection, new_process, new_monitor, add_connection, add_process,
}
use log_shipper.Monitoring.Counters.{new_stats}
use log_shipper.Web.Nodes.{get_nodes, no_texts, nodes}
use log_shipper.Web.{
  ApiSource, ApiTarget, Texts, HttpClient, status_ok, internal_server_error, get_sources,
  get_targets, get_workers,
}
use log_shipper.Base.{◌++◌, not}
use log_shipper.Protocol.Stream.{holding, open_writer}
use log_shipper.Broker.Manager.{new_manager}
use log_shipper.Broker.Sample.{from_source, lib}
use log_shipper.Broker.Target.{World, handle_rate_limiting}
use log_shipper.Web.Breaches.{passes, shows_breach, get_targets-breaches}

abbrev texts : Texts
texts = record { byte_size = decimal; duration = decimal }

abbrev monitor : Monitor
monitor = add_process (new_process "worker_0" "worker") (
    add_connection
      (new_connection (record { host = "127.0.0.1"; port = 80 }) "stdout" "out" "target")
      (add_connection
        (new_connection (record { host = "127.0.0.1"; port = 81 }) "dummy" "app" "source")
        (new_monitor none)))

-- A client whose requests are refused, or answered with an error.
abbrev refused : (A : Type 0) → HttpClient ℕ A
refused A = record {
  get = λ url. inl url;
  read_all = λ n. inl "read";
  unmarshal = λ bs. inl "json";
}

sources_test :
    get_sources texts (refused (List ApiSource)) "" monitor
    ≡ status_ok (
        record {
          id = "app";
          connection = "127.0.0.1:81";
          state = "";
          provider = "dummy";
          bytes_processed = "0";
          inbound_messages = 0;
          outbound_messages = 0;
          inflight_messages = 0;
          dropped_messages = 0;
        }
        ∷ [])
unfolding get_sources add_connection add_process new_connection new_process new_monitor new_stats
    decimal
sources_test = refl

-- The target has a limit of 5 bytes, and 7 were counted.
targets_test :
    get_targets texts
      (refused (List ApiTarget))
      ""
      (λ c. increment 7 (new "out" 5 60 60 2) ∷ [])
      monitor
    ≡ status_ok (
        record {
          id = "out";
          connection = "127.0.0.1:80";
          state = "";
          provider = "stdout";
          bytes_processed = "0";
          inbound_messages = 0;
          outbound_messages = 0;
          inflight_messages = 0;
          dropped_messages = 0;
          resent_messages = 0;
          rate_limiters =
              record {
                id = "limiter_0";
                limit = "5";
                average = "7";
                current = "7";
                average_breached = true;
                current_breached = true;
                stored_metrics = 0;
                interval = "60";
              }
              ∷ [];
        }
        ∷ [])
unfolding get_targets add_connection add_process new_connection new_process new_monitor new_stats
    decimal new increment is_over_limit is_average_over_limit get_current
targets_test = refl

refused_test :
    get_workers texts (refused _) "10.0.0.7" monitor
    ≡ internal_server_error "http://10.0.0.7/api/workers"
unfolding get_workers
refused_test = refl

nodes_test :
    get_nodes "127.0.0.1:8500" "log-shipper" (
      some (λ name.
        inr (record { service_id = name; service_address = "10.0.0.7"; service_port = 80 } ∷ [])))
    ≡ some (
        status_ok (
          nodes (
            record { id = "log-shipper"; address = "10.0.0.7:80"; host = "10.0.0.7"; port = 80 }
            ∷ [])))
unfolding get_nodes decimal
nodes_test = refl

no_consul_test : get_nodes "" "log-shipper" none ≡ some (status_ok no_texts)
unfolding get_nodes
no_consul_test = refl

abbrev strict : World
strict = record {
  name = "out";
  rules =
      record {
        rate_limiter = increment 7 (new "out" 5 60 60 2);
        breach_behaviour = record { action = "discard"; target = ""; alert_level = "WARN" };
      }
      ∷ [];
  connection = new_connection (record { host = "127.0.0.1"; port = 80 }) "stdout" "out" "target";
  monitor = none;
  writer = open_writer [];
  reader = holding [] [];
  manager = new_manager;
  sends = [];
}

get_targets-breaches_example :
    (earlier later : List ApiTarget) × (row : ApiTarget) × (get_targets texts
        (refused (List ApiTarget))
        ""
        (λ c. increment 7 (new "out" 5 60 60 2) ∷ [])
        monitor
      ≡ status_ok (earlier ++ row ∷ later))
    × (row.id ≡ "out")
    × (passes (handle_rate_limiting lib 0 from_source strict)
        ≡ not (shows_breach row.rate_limiters))
unfolding add_connection add_process new_connection new_process new_monitor
get_targets-breaches_example =
    get_targets-breaches texts (refused (List ApiTarget))
      (λ c. increment 7 (new "out" 5 60 60 2) ∷ []) monitor
      (new_connection (record { host = "127.0.0.1"; port = 81 }) "dummy" "app" "source" ∷ []) [] lib
      0 from_source strict refl refl refl refl
