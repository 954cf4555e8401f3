-- ===== src/Broker/Manager.antt =====
-- broker/connector.go: `ConnectorManager`, its count of messages in flight and its connectors.
use log_shipper.Base.{
  ℕ, zero, suc, ◌+◌, String, Bool, false, Option, none, some, List, [], ◌∷◌, ◌||◌, str_eq,
}
use log_shipper.Base.Word.{add64, not64}

-- Why a goroutine panics.
pub data Panic : Type 0 where
  negative_counter nil_dereference closed_twice : Panic

-- The connectors are known by their names; `in_flight` and the other two are the counters of the
-- wait groups.
pub record Manager : Type 0 where
  pub source_connectors : List String
  pub target_connectors : List String
  pub target_wait : ℕ
  pub source_wait : ℕ
  pub in_flight : ℕ
  pub target_stop_closed : Bool
  pub source_stop_closed : Bool
  pub messages_in_flight : ℕ

unfoldable pub new_manager : Manager
new_manager = record {
  source_connectors = [];
  target_connectors = [];
  target_wait = 0;
  source_wait = 0;
  in_flight = 0;
  target_stop_closed = false;
  source_stop_closed = false;
  messages_in_flight = 0;
}

unfoldable pub contains : String → List String → Bool
contains name [] = false
contains name (n ∷ ns) = str_eq n name || contains name ns

-- `SendToTarget`, as far as it looks up the target: `true` hands the message over to it.
unfoldable pub finds_target : String → Manager → Bool
finds_target target m = contains target m.target_connectors

unfoldable pub add_message : ℕ → Manager → Manager
add_message delta m = record m {
  messages_in_flight = add64 m.messages_in_flight delta;
  in_flight = m.in_flight + delta;
}

-- What `Done` makes of a counter; `none` is its panic.
abbrev pub done : ℕ → Option ℕ
done zero = none
done (suc n) = some n

pub complete : Manager → Option ℕ → Option Manager
complete m none = none
complete m (some n) =
    some (record m { messages_in_flight = add64 m.messages_in_flight (not64 0); in_flight = n })

unfoldable pub complete_message : Manager → Option Manager
unfolding complete
complete_message m = complete m (done m.in_flight)

unfoldable pub register_targets : List String → Manager → Manager
register_targets [] m = m
register_targets (name ∷ names) m =
    register_targets names
      (record m { target_connectors = name ∷ m.target_connectors; target_wait = m.target_wait + 1 })

unfoldable pub register_sources : List String → Manager → Manager
register_sources [] m = m
register_sources (name ∷ names) m =
    register_sources names
      (record m { source_connectors = name ∷ m.source_connectors; source_wait = m.source_wait + 1 })

-- `Start`: a connector and a count in the wait group for each target, then for each source.
unfoldable pub start : List String → List String → Manager → Manager
unfolding register_targets register_sources
start sources targets m = register_sources sources (register_targets targets m)
