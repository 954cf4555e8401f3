-- ===== src/Broker/Target/Tests.antt =====
-- The theorems on a target's loop at concrete worlds.
use log_shipper.Base.{ℕ, ◌≡◌, refl, String, none, some, List, [], ◌∷◌, map, arith}
use log_shipper.Limiter.{new, is_average_over_limit}
use log_shipper.Protocol.Input.{chunk, Reader, read, conn_read}
use log_shipper.Protocol.Frame.{put_uint32, uint32}
use log_shipper.Protocol.{
  Writer, write, write_protobuf, write_message, message_to_protobuf, write_new_message,
  read_message, wait_for, wait_for_ok,
}
use log_shipper.Protocol.Sample.{words}
use log_shipper.Message.{protobuf_to_broker, to_protobuf}
use log_shipper.Monitoring.{new_connection, new_monitor}
use log_shipper.Monitoring.Counters.{new_stats}
use log_shipper.Broker.Sample.{from_source, codecs, lib}
use log_shipper.Broker.Manager.{new_manager, nil_dereference, finds_target, contains}
use log_shipper.Broker.Target.{
  World, continues, returns, panics, RateLimitRule, count_rule, receive, handle_rate_limiting,
  is_over,
}
use log_shipper.Broker.Target.Rules.{first_breach, verdict, handle_rate_limiting-first_breach}
use log_shipper.Broker.Target.Rounds.{Settles, Marshals, receive-Settles}
use log_shipper.Broker.Target.Delivery.{receive_delivers, receive-Unconfirmed}
use log_shipper.Broker.Target.Losses.{receive_unknown_fallback}

abbrev rule : String → String → RateLimitRule
rule action target = record {
  rate_limiter = record (new "logs" 5 1_000_000 1_000_000 2) { current_count = 9 };
  breach_behaviour = record { action = action; target = target; alert_level = "WARN" };
}

abbrev ok_frame : List ℕ
ok_frame = 1 ∷ 0 ∷ 0 ∷ 0 ∷ 2 ∷ []

abbrev hello_frame : List ℕ
hello_frame = 1 ∷ 0 ∷ 0 ∷ 0 ∷ 1 ∷ []

-- One message in flight, a connection to the target "logs", and what the target will answer.
abbrev world : List RateLimitRule → List ℕ → World
world rules answer = record {
  name = "logs";
  rules = rules;
  connection = new_connection (record { host = "127.0.0.1"; port = 1 }) "stdout" "logs" "target";
  monitor = some (new_monitor (some []));
  writer = record { written = []; outcomes = [] };
  reader = record { buffered = []; arrivals = chunk answer ∷ [] };
  manager = record new_manager { in_flight = 1; target_connectors = "spare" ∷ "logs" ∷ [] };
  sends = [];
}

-- An over-limit rule with an action that the code does not know lets the message pass.
abbrev tolerant : World
tolerant = world (rule "" "" ∷ []) ok_frame

all_marshal : Marshals codecs.of_broker
all_marshal = λ m e. cc

receive-Settles_example :
    Settles
      (world (rule "fallback" "spare" ∷ []) [])
      (receive lib 0 (1 ∷ []) (world (rule "fallback" "spare" ∷ []) []))
unfolding finds_target contains new_manager
receive-Settles_example =
    receive-Settles lib 0 (1 ∷ []) (world (rule "fallback" "spare" ∷ []) []) all_marshal
      ((λ e. refl), tt)

handle_rate_limiting-first_breach_example :
    handle_rate_limiting lib 0 from_source tolerant
    ≡ verdict lib 0 from_source tolerant (first_breach tolerant.rules)
handle_rate_limiting-first_breach_example =
    handle_rate_limiting-first_breach lib 0 from_source tolerant

first_breach_test :
    first_breach (rule "" "" ∷ rule "discard" "" ∷ rule "fallback" "spare" ∷ [])
    ≡ some (rule "discard" "")
unfolding is_over is_average_over_limit new
first_breach_test = refl

abbrev written_frame : Writer
written_frame = record { written = 3 ∷ 0 ∷ 0 ∷ 0 ∷ 3 ∷ 7 ∷ 8 ∷ []; outcomes = [] }

abbrev all_read : Reader
all_read = record { buffered = []; arrivals = [] }

receive_delivers_example :
    (w' : World) × (receive lib 0 (1 ∷ []) tolerant ≡ continues w')
    × (w'.writer ≡ written_frame)
    × (w'.reader ≡ all_read)
    × (w'.rules ≡ map (count_rule 2) (rule "" "" ∷ []))
    × (w'.manager.in_flight ≡ 0)
    × (w'.sends ≡ [])
    × (w'.connection.stats.messages_outbound ≡ 1)
    × (w'.connection.stats.messages_in_flight ≡ 0)
unfolding protobuf_to_broker to_protobuf is_over is_average_over_limit new write_new_message
    write_message message_to_protobuf write_protobuf write put_uint32 words wait_for_ok wait_for
    read_message read conn_read uint32 new_manager new_connection new_stats
receive_delivers_example =
    receive_delivers lib 0 (1 ∷ []) (7 ∷ 8 ∷ []) from_source tolerant written_frame 0 refl refl refl
      refl refl all_read refl (omega arith)

abbrev unmonitored : World
unmonitored = record (world [] hello_frame) { monitor = none }

receive-Unconfirmed_example :
    (w' : World) × (receive lib 0 (1 ∷ []) unmonitored ≡ returns w')
    × (w'.manager.in_flight ≡ 0)
    × (w'.sends ≡ [])
    × (w'.rules ≡ [])
    × (w'.connection.state ≡ "dead")
    × (w'.connection.stats.dropped_messages ≡ 1)
unfolding protobuf_to_broker to_protobuf new write_new_message write_message message_to_protobuf
    write_protobuf write put_uint32 words wait_for_ok wait_for read_message read conn_read uint32
    new_manager new_connection new_stats
receive-Unconfirmed_example =
    receive-Unconfirmed lib 0 (1 ∷ []) (7 ∷ 8 ∷ []) from_source unmonitored written_frame 0 refl
      refl refl refl refl all_read refl

-- With a monitor.
panics_test : receive lib 0 (1 ∷ []) (world [] hello_frame) ≡ panics nil_dereference
unfolding protobuf_to_broker to_protobuf new write_new_message write_message message_to_protobuf
    write_protobuf write put_uint32 words wait_for_ok wait_for read_message read conn_read uint32
    new_manager
panics_test =
    receive-Unconfirmed lib 0 (1 ∷ []) (7 ∷ 8 ∷ []) from_source (world [] hello_frame) written_frame
      0 refl refl refl refl refl all_read refl

abbrev lossy : World
lossy = world (rule "fallback" "nowhere" ∷ []) ok_frame

receive_unknown_fallback_example :
    (w' : World) × (receive lib 0 (1 ∷ []) lossy ≡ continues w')
    × (w'.manager ≡ lossy.manager)
    × (w'.sends ≡ [])
    × (w'.connection.stats.messages_in_flight ≡ 1)
    × (w'.connection.stats.messages_outbound ≡ 1)
unfolding protobuf_to_broker to_protobuf is_over is_average_over_limit new finds_target contains
    new_manager new_connection new_stats
receive_unknown_fallback_example =
    receive_unknown_fallback lib 0 (1 ∷ []) (7 ∷ 8 ∷ []) (1 ∷ []) from_source lossy
      (rule "fallback" "nowhere") refl refl refl refl refl refl
