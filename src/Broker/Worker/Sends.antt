-- ===== src/Broker/Worker/Sends.antt =====
-- Whom a worker hands a message to.
use log_shipper.Base.{
  ℕ, ◌≡◌, refl, sym, ◌∙◌, String, none, List, [], ◌∷◌, ◌++◌, if◌then◌else◌, Bool-cases, inl, inr,
  append-nil, append_assoc,
}
use log_shipper.Message.{BrokerMessage, protobuf_to_broker}
use log_shipper.Monitoring.Counters.{increment_messages_outbound, remove_in_flight_message}
use log_shipper.Broker.Manager.{Manager, finds_target}
use log_shipper.Broker.Target.{Library}
use log_shipper.Broker.Worker.{
  Worker, received, continues, send_to_target, send_to_targets, distribute, begin_work, enter_state,
  update_stats, turn,
}

-- The copies for the targets that the broker has, in the order of the list.
abbrev pub copies : Manager → List ℕ → List String → List (String × List ℕ)
copies m raw [] = []
copies m raw (target ∷ targets) =
    let rest = copies m raw targets in if finds_target target m then (target, raw) ∷ rest else rest

record Sent (m : Manager) (sends : List (String × List ℕ)) (w : Worker) : Type 0 where
  manager : w.manager ≡ m
  sends_ : w.sends ≡ sends

send_to_targets-copies :
    (raw : List ℕ) (targets : List String) (w : Worker)
    → Sent w.manager (w.sends ++ copies w.manager raw targets) (send_to_targets raw targets w)
unfolding send_to_targets send_to_target
send_to_targets-copies raw [] w = record { manager = refl; sends_ = sym (append-nil w.sends) }
send_to_targets-copies raw (target ∷ targets) w =
    elim (Bool-cases (finds_target target w.manager)) [
      | inl known ↦ rw known (
          let rest = send_to_targets-copies raw targets (
            update_stats (increment_messages_outbound 1)
              (record w { sends = w.sends ++ (target, raw) ∷ [] })) in
          record {
            manager = rest.manager;
            sends_ =
                rest.sends_
                ∙ append_assoc w.sends ((target, raw) ∷ []) (copies w.manager raw targets);
          })
      | inr unknown ↦ rw unknown (send_to_targets-copies raw targets w)
    ]

-- A worker that can parse a message hands the bytes that it got, unchanged, to each target of the
-- message that the broker has, in the order of the list, and to no other; it goes on, and leaves the
-- counts of the manager alone, also those for targets that the broker does not have.
pub turn-copies :
    (lib : Library) (now : ℕ) (raw : List ℕ) (l : BrokerMessage) (w : Worker)
    → protobuf_to_broker lib.codecs raw ≡ (l, none)
    → (w' : Worker) × (turn lib now (received raw) w ≡ continues w')
      × (w'.sends ≡ w.sends ++ copies w.manager raw l.targets)
      × (w'.manager ≡ w.manager)
unfolding turn distribute begin_work
turn-copies lib now raw l w parses =
    let started = begin_work raw (enter_state "waiting" w) in
    let sent = send_to_targets-copies raw l.targets started in
    (
      update_stats remove_in_flight_message (send_to_targets raw l.targets started),
      rw parses refl,
      sent.sends_,
      sent.manager,
    )
