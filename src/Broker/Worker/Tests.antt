-- ===== src/Broker/Worker/Tests.antt =====
-- The theorem on a worker's loop at a message for one target.
use log_shipper.Base.Decimal.{decimal}
use log_shipper.Broker.Worker.Group.{start_workers, stop_workers, new_worker_manager}
use log_shipper.Monitoring.{set_process_state, new_monitor, add_process}
use log_shipper.Base.{◌≡◌, refl, true, false, none, some, [], ◌∷◌}
use log_shipper.Message.{protobuf_to_broker}
use log_shipper.Monitoring.{new_process}
use log_shipper.Broker.Sample.{lib, from_source}
use log_shipper.Broker.Manager.{new_manager, finds_target, contains}
use log_shipper.Broker.Worker.{Worker, received, continues, turn}
use log_shipper.Broker.Worker.Sends.{turn-copies}

abbrev worker : Worker
worker = record {
  process = new_process "worker_0" "worker";
  monitor = none;
  manager = record new_manager { target_connectors = "logs" ∷ [] };
  sends = [];
}

turn-copies_example :
    (w' : Worker) × (turn lib 0 (received (1 ∷ 2 ∷ [])) worker ≡ continues w')
    × (w'.sends ≡ ("logs", 1 ∷ 2 ∷ []) ∷ [])
    × (w'.manager ≡ worker.manager)
unfolding protobuf_to_broker finds_target contains
turn-copies_example = turn-copies lib 0 (1 ∷ 2 ∷ []) from_source worker refl

-- Two workers are started; a manager is stopped twice.
two_test : start_workers 2 (new_worker_manager (some (new_monitor none))) ≡ record {
  wait_group = 2;
  stop_closed = false;
  monitor = some (record {
    connections = [];
    processes =
        set_process_state "starting" (new_process "worker_0" "worker")
        ∷ set_process_state "starting" (new_process "worker_1" "worker")
        ∷ [];
    logger = none;
  });
}
unfolding start_workers new_worker_manager new_process set_process_state add_process new_monitor
    decimal
two_test = refl

stop_test : stop_workers (record { wait_group = 2; stop_closed = true; monitor = none }) ≡ none
unfolding stop_workers
stop_test = refl
