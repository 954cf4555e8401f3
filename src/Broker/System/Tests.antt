-- ===== src/Broker/System/Tests.antt =====
-- The theorems on a running broker at short runs of one source, one worker and two targets.
use log_shipper.Base.{◌+◌, ◌≤◌, ◌≡◌, refl, arith, false, [], ◌∷◌}
use log_shipper.Base.Lists.{length}
use log_shipper.Broker.Manager.{
  new_manager, start as start_manager, register_sources, register_targets, add_message,
  complete_message, finds_target, contains,
}
use log_shipper.Broker.System.{
  System, here, there, Step, publish, hand_over, source_returns, send, send_nowhere, worker_waits,
  fall_back, stop_workers, worker_returns, workers_stopped, stop_targets, target_fails, launched,
  Reach, start, later,
}
use log_shipper.Broker.System.Counting.{copies_of}
use log_shipper.Broker.System.Shutdown.{wait_groups_count, stop_finds_nothing, lost_blocks}
use log_shipper.Broker.System.Deadlock.{
  first, next, Embraced, Abandoned, Embraced-blocks, Abandoned-blocks,
}
use log_shipper.Broker.System.Ending.{drains}
use log_shipper.Broker.System.{finished}
use log_shipper.Base.{none}
use log_shipper.Protocol.{Message, command_source_message}
use log_shipper.Monitoring.{new_connection}
use log_shipper.Broker.Sample.{lib}
use log_shipper.Broker.Target.{World, receive}
use log_shipper.Broker.Source.{Source, incoming, turn}
use log_shipper.Broker.System.Refinement.{Explained, receive-Explained}
use log_shipper.Broker.System.Sources

abbrev Run : Type 0
Run = (s : System) × Reach (launched ("src" ∷ []) ("a" ∷ "b" ∷ []) 1) s

-- One message for the target "a" is on its way: the target works on it.
one_message : Run
unfolding start_manager register_sources register_targets new_manager finds_target contains
    add_message
one_message = (
  _,
  later (later (later start (publish ("a" ∷ []) refl)) (hand_over (here []) refl))
      (send (here []) refl (refl, refl)),
)

wait_groups_count_example :
    (one_message.0.manager.in_flight
      ≡ copies_of one_message.0.published
        + copies_of one_message.0.carried
        + length one_message.0.active
        + one_message.0.lost)
    × (one_message.0.manager.source_wait ≡ one_message.0.reading + length one_message.0.published)
    × (one_message.0.workers ≡ one_message.0.waiting + length one_message.0.carried)
wait_groups_count_example = wait_groups_count ("src" ∷ []) ("a" ∷ "b" ∷ []) 1 one_message.1

drains_example :
    (t : System) × Reach one_message.0 t
    × (t.phase ≡ finished)
    × (t.published ≡ [])
    × (t.carried ≡ [])
    × (t.active ≡ [])
    × (t.lost ≡ 0)
unfolding start_manager register_sources register_targets new_manager add_message one_message
drains_example =
    drains ("src" ∷ []) ("a" ∷ "b" ∷ []) 1 one_message.1 ((refl, tt), (tt, tt)) (omega arith) refl
      refl refl refl tt (tt, tt)

-- The same message to the end, and the shutdown after it.
drained : Run
unfolding start_manager register_sources register_targets new_manager finds_target contains
    add_message complete_message one_message
drained =
    let delivered = later one_message.1 (Step.complete (here []) refl) in
    let waits = later delivered (worker_waits (here [])) in
    let no_source = later (later waits (source_returns refl refl)) (stop_workers refl refl) in
    let no_worker =
      later (later no_source (worker_returns refl refl refl)) (workers_stopped refl refl) in
    (_, later no_worker (stop_targets refl refl))

stop_finds_nothing_example :
    (drained.0.published ≡ [])
    × (drained.0.carried ≡ [])
    × (drained.0.active ≡ [])
    × (drained.0.lost ≡ 0)
unfolding drained
stop_finds_nothing_example = stop_finds_nothing ("src" ∷ []) ("a" ∷ "b" ∷ []) 1 drained.1 refl

-- A message for a target that the broker does not have.
astray : Run
unfolding start_manager register_sources register_targets new_manager finds_target contains
    add_message
astray = (
  _,
  later (later (later start (publish ("nowhere" ∷ []) refl)) (hand_over (here []) refl))
      (send_nowhere (here []) refl),
)

lost_blocks_example :
    (1 ≤ astray.0.manager.in_flight) × (astray.0.manager.target_stop_closed ≡ false)
unfolding astray
lost_blocks_example = lost_blocks ("src" ∷ []) ("a" ∷ "b" ∷ []) 1 astray.1 (omega arith) start

-- Two messages whose targets fall back to each other.
crossed : Run
unfolding start_manager register_sources register_targets new_manager finds_target contains
    add_message
crossed =
    let carried = later (later start (publish ("a" ∷ "b" ∷ []) refl)) (hand_over (here []) refl) in
    let both =
      later (later carried (send (here []) refl (refl, refl))) (send (here []) refl (refl, refl)) in
    (_, later (later both (fall_back "a" (here _) refl)) (fall_back "b" (there _ (here [])) refl))

Embraced-blocks_example :
    Embraced "a" "b" crossed.0
    × (1 ≤ crossed.0.manager.in_flight)
    × (crossed.0.manager.target_stop_closed ≡ false)
unfolding crossed
Embraced-blocks_example =
    Embraced-blocks ("src" ∷ []) ("a" ∷ "b" ∷ []) 1 "a" "b" crossed.1
      (record { forth = first _; back = next _ (first []) }) start

-- A message for a target that could not be dialled.
forsaken : Run
unfolding start_manager register_sources register_targets new_manager finds_target contains
    add_message
forsaken =
    let failed = later start (target_fails "a" refl (refl, refl) refl) in
    (_, later (later failed (publish ("a" ∷ []) refl)) (hand_over (here []) refl))

Abandoned-blocks_example :
    Abandoned "a" [] forsaken.0
    × (1 ≤ forsaken.0.workers)
    × (forsaken.0.manager.target_stop_closed ≡ false)
unfolding forsaken start_manager register_sources register_targets new_manager finds_target contains
Abandoned-blocks_example =
    Abandoned-blocks ("src" ∷ []) ("a" ∷ "b" ∷ []) 1 "a" [] forsaken.1
      (record { held = first []; gone = refl; known = refl }) start

-- The target "a" of the one message in flight, seen by its goroutine.
abbrev at_a : World
at_a = record {
  name = "a";
  rules = [];
  connection = new_connection (record { host = "127.0.0.1"; port = 1 }) "stdout" "a" "target";
  monitor = none;
  writer = record { written = []; outcomes = [] };
  reader = record { buffered = []; arrivals = [] };
  manager = one_message.0.manager;
  sends = [];
}

receive-Explained_example : Explained one_message.0 at_a [] (receive lib 3 (1 ∷ []) at_a)
unfolding start_manager register_sources register_targets new_manager add_message one_message
receive-Explained_example =
    receive-Explained ("src" ∷ []) ("a" ∷ "b" ∷ []) 1 at_a one_message.1
      (record { manager = refl; picked = here []; counted = omega arith }) lib 3 (1 ∷ [])

abbrev source_of_one : Source
source_of_one = record {
  name = "src";
  targets = "a" ∷ "b" ∷ [];
  connection = new_connection (record { host = "127.0.0.1"; port = 2 }) "dummy" "src" "source";
  monitor = none;
  writer = record { written = []; outcomes = [] };
  manager = one_message.0.manager;
  outbound = [];
}

abbrev source_line : Message
source_line = record { command = command_source_message; payload = 5 ∷ [] }

turn-Explained_example :
    Sources.Explained one_message.0 source_of_one (turn lib 4 (incoming source_line) source_of_one)
unfolding start_manager register_sources register_targets new_manager add_message one_message
turn-Explained_example =
    Sources.turn-Explained ("src" ∷ []) ("a" ∷ "b" ∷ []) 1 source_of_one one_message.1 refl
      (omega arith) lib 4 (incoming source_line)
