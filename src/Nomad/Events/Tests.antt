-- ===== src/Nomad/Events/Tests.antt =====
-- The theorem on the events of an allocation at a task with two events.
use log_shipper.Base.{
  arith, ℕ, ◌≡◌, refl, String, Bool, false, ◌||◌, none, some, List, [], ◌∷◌, str_eq,
}
use log_shipper.Base.Lists.{All, length}
use log_shipper.Base.Decimal.{decimal}
use log_shipper.Base.Dict.{lookup, insert}
use log_shipper.Base.Utf8.{utf8, trim_space}
use log_shipper.Message.{SourceMessage}
use log_shipper.Nomad.{TaskEvent, Allocation}
use log_shipper.Nomad.Config.{
  new_from_allocation, meta_to_group_config, meta_to_task_config, meta_to_job_config,
}
use log_shipper.Nomad.Events.{Ledger, event_key, watch_allocation_events}
use log_shipper.Nomad.Events.Once.{Remembers}
use log_shipper.Nomad.Events.Life.{
  Happening, ticks, stops, others, new_allocation_worker, update_allocation_config, start, watch,
}
use log_shipper.Nomad.Events.Reported.{OnceEach, watch-reports_once}

abbrev member : String → List String → Bool
member wanted [] = false
member wanted (key ∷ keys) = str_eq key wanted || member wanted keys

abbrev ledger : Ledger (List String)
ledger = record { has_key = member; put = λ key keys. key ∷ keys; hash = λ e. some e.time }

remembers : Remembers ledger
remembers key wanted k = refl

abbrev event : ℕ → TaskEvent
event time = record {
  event_type = "Started";
  driver_message = "up";
  driver_error = "";
  time = time;
}

abbrev alloc : Allocation
alloc = record {
  id = "a1";
  task_group = "front";
  task_states = ("nginx", event 1 ∷ event 2 ∷ event 1 ∷ []) ∷ [];
  job = some (record {
    id = some "j1";
    name = some "web";
    task_groups =
        record { name = some "front"; tasks = record { name = "nginx"; meta = [] } ∷ []; meta = [] }
        ∷ [];
    meta = [];
  });
}

abbrev sent : ℕ → SourceMessage
sent time = record {
  id = "j1";
  message = utf8 "[Started] up";
  meta =
      ("task", "nginx")
      ∷ ("alloc", "a1")
      ∷ ("job", "j1")
      ∷ ("group", "front")
      ∷ ("event_type", "Started")
      ∷ ("driver_message", "up")
      ∷ ("driver_error", "")
      ∷ [];
  attributes = some (record { attribute_type = "nomad_task_events"; timestamp = time });
}

-- Events with one hash are one.
watch_test :
    watch_allocation_events ledger "c" alloc []
    ≡ some (sent 0 ∷ sent 0 ∷ [], event_key "c" "a1" 2 ∷ event_key "c" "a1" 1 ∷ [])
unfolding watch_allocation_events new_from_allocation meta_to_group_config meta_to_task_config
    meta_to_job_config lookup insert utf8 trim_space decimal
watch_test = refl

-- A tick, another one after keys were put by others, and one on an allocation with one more event.
abbrev life : List (Happening (List String))
life =
    let later = record alloc { task_states = ("nginx", event 2 ∷ event 3 ∷ []) ∷ [] } in
    ticks (some alloc)
    ∷ others (λ keys. "k" ∷ keys)
    ∷ ticks (some alloc)
    ∷ ticks (some later)
    ∷ stops
    ∷ []

abbrev put_keys : List String
put_keys = event_key "c" "a1" 3 ∷ event_key "c" "a1" 2 ∷ event_key "c" "a1" 1 ∷ []

abbrev left_keys : List String
left_keys = event_key "c" "a1" 3 ∷ "k" ∷ event_key "c" "a1" 2 ∷ event_key "c" "a1" 1 ∷ "old" ∷ []

watch-reports_once_example :
    OnceEach put_keys
    × All (λ key. member key ("old" ∷ []) ≡ false) put_keys
    × (length (sent 0 ∷ sent 0 ∷ sent 0 ∷ []) ≡ length put_keys)
unfolding watch watch_allocation_events new_from_allocation meta_to_group_config meta_to_task_config
    meta_to_job_config lookup insert utf8 trim_space decimal
watch-reports_once_example =
    watch-reports_once ledger "c" remembers life ("old" ∷ []) left_keys
      (sent 0 ∷ sent 0 ∷ sent 0 ∷ []) put_keys
      (tt, (λ key k h. ground (arith, h), (tt, (tt, (tt, tt))))) refl

-- A worker whose first question to Nomad fails reads a configuration that is nil.
start_test : start none (new_allocation_worker "c" alloc) ≡ none
unfolding start new_allocation_worker update_allocation_config
start_test = refl
