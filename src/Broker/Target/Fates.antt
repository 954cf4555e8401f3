-- ===== src/Broker/Target/Fates.antt =====
-- All that a round of a target's loop can come to, for the message and for the shared manager.
use log_shipper.Base.{
  ℕ, ◌≡◌, refl, sym, ap, ◌∙◌, String, Bool, true, false, Option, none, some, List, [], ◌∷◌, ◌++◌,
  if◌then◌else◌, str_eq, Bool-cases, inl, inr,
}
use log_shipper.Base.Lists.{length}
use log_shipper.Protocol.{Writer}
use log_shipper.Protocol.Input.{Fault}
use log_shipper.Message.{BrokerMessage, protobuf_to_broker}
use log_shipper.Monitoring.{Monitor, fatal, error, info}
use log_shipper.Broker.Manager.{
  Manager, negative_counter, nil_dereference, finds_target, complete_message,
}
use log_shipper.Broker.Target.{
  Library, World, Outcome, continues, returns, panics, RateLimitRule, discard, fallback, forward,
  set_state, log_if_monitored, completed, completing, error_text, log_unanswered, unanswered,
  answered, delivered, deliver, note_limited, limited, converted, parsed, begin, receive,
  count_for_rules, fallback_text, missing_text, limited_text, die, count_resent,
}
use log_shipper.Broker.Target.Rules.{first_breach, verdict, handle_rate_limiting-first_breach}
use log_shipper.Broker.Target.Rounds.{Keeps, log_if_monitored-Keeps}

-- What becomes of the message that a round took, and of the goroutine.
pub data Fate (w : World) : Outcome → Type 0 where
  completes :
      (w' : World)
      → complete_message w.manager ≡ some w'.manager
      → w'.sends ≡ w.sends
      → Fate w (continues w')
  hands_on :
      (target : String) (raw : List ℕ) (w' : World)
      → finds_target target w.manager ≡ true
      → w'.manager ≡ w.manager
      → w'.sends ≡ w.sends ++ (target, raw) ∷ []
      → Fate w (continues w')
  drops : (w' : World) → w'.manager ≡ w.manager → w'.sends ≡ w.sends → Fate w (continues w')
  completes_and_returns :
      (w' : World)
      → complete_message w.manager ≡ some w'.manager
      → w'.sends ≡ w.sends
      → Fate w (returns w')
  drops_and_returns :
      (w' : World) → w'.manager ≡ w.manager → w'.sends ≡ w.sends → Fate w (returns w')
  finds_no_count : complete_message w.manager ≡ none → Fate w (panics negative_counter)
  logs_no_error :
      (m : Manager) → complete_message w.manager ≡ some m → Fate w (panics nil_dereference)

Fate-Keeps : {w w' w'' : World} → Fate w (continues w') → Keeps w' w'' → Fate w (continues w'')
Fate-Keeps {w'' = w''} (completes w' e s) k =
    completes w'' (e ∙ ap some (sym k.manager)) (k.sends ∙ s)
Fate-Keeps {w'' = w''} (hands_on t raw w' f m s) k =
    hands_on t raw w'' f (k.manager ∙ m) (k.sends ∙ s)
Fate-Keeps {w'' = w''} (drops w' m s) k = drops w'' (k.manager ∙ m) (k.sends ∙ s)

completing-Fate :
    (w₀ w : World) (next : World → Outcome)
    → Keeps w₀ w
    → ((w' : World)
        → complete_message w₀.manager ≡ some w'.manager
        → w'.sends ≡ w₀.sends
        → Fate w₀ (next w'))
    → Fate w₀ (completing w next)
unfolding completing
completing-Fate w₀ w next k h = go (complete_message w.manager) refl
  where
    go : (o : Option Manager) → complete_message w.manager ≡ o → Fate w₀ (completed w next o)
    go none e = finds_no_count (ap complete_message (sym k.manager) ∙ e)
    go (some m) e = h (record w { manager = m }) (ap complete_message (sym k.manager) ∙ e) k.sends

die-Keeps : (text : String) (now : ℕ) (w : World) → Keeps w (die text now w)
unfolding die
die-Keeps text now w =
    let k = log_if_monitored-Keeps fatal text now (set_state "dead" w) in
    record { manager = k.manager; sends = k.sends }

answered-Fate :
    (lib : Library) (now : ℕ) (w₀ : World) (bytes : ℕ) (w : World) (ok : Bool)
    → Keeps w₀ w
    → Fate w₀ (answered lib now none bytes w ok)
unfolding answered unanswered error_text log_unanswered count_for_rules
answered-Fate lib now w₀ bytes w true k =
    completing-Fate w₀ (count_for_rules bytes w) _ (record { manager = k.manager; sends = k.sends })
      (λ w' e s. completes _ e s)
answered-Fate lib now w₀ bytes w false k = completing-Fate w₀ w _ k (λ w' e s. go w' w'.monitor e s)
  where
    go :
        (w' : World) (m : Option Monitor)
        → complete_message w₀.manager ≡ some w'.manager
        → w'.sends ≡ w₀.sends
        → Fate w₀ (unanswered lib now none (set_state "dead" w') m)
    go w' none e s = completes_and_returns _ e s
    go w' (some m) e s = logs_no_error w'.manager e

module _ (lib : Library) (now : ℕ) (w₀ w : World) (keeps : Keeps w₀ w) where
  delivered-Fate : (raw : List ℕ) (x : Option Fault × Writer) → Fate w₀ (delivered lib now raw w x)
  unfolding delivered
  delivered-Fate raw (some fault, writer) =
      let k = die-Keeps (lib.describe fault) now (record w { writer = writer }) in
      drops_and_returns _ (k.manager ∙ keeps.manager) (k.sends ∙ keeps.sends)
  delivered-Fate raw (none, writer) =
      answered-Fate lib now w₀ (length raw) _ _
        (record { manager = keeps.manager; sends = keeps.sends })

  discard-Fate : Fate w₀ (discard w)
  unfolding discard
  discard-Fate = completing-Fate w₀ w _ keeps (λ w' e s. completes _ e s)

  forward-Fate : (target : String) (o : Option (List ℕ)) → Fate w₀ (forward lib now target w o)
  unfolding forward
  forward-Fate target none =
      let k = log_if_monitored-Keeps error lib.describe_marshal now (set_state "dead" w) in
      drops _ (k.manager ∙ keeps.manager) (k.sends ∙ keeps.sends)
  forward-Fate target (some raw) =
      sent (log_if_monitored info (fallback_text target) now w)
        (log_if_monitored-Keeps info (fallback_text target) now w)
    where
      sent :
          (w' : World)
          → Keeps w w'
          → Fate w₀ (
              if finds_target target w'.manager
              then continues (count_resent (record w' { sends = w'.sends ++ (target, raw) ∷ [] }))
              else continues (log_if_monitored error (missing_text target) now (count_resent w')))
      sent w' k = elim (Bool-cases (finds_target target w'.manager)) [
        | inl known ↦ rw known (
            hands_on target raw _
              (ap (finds_target target) (sym (k.manager ∙ keeps.manager)) ∙ known)
              (k.manager ∙ keeps.manager)
              (ap (λ s. s ++ (target, raw) ∷ []) (k.sends ∙ keeps.sends)))
        | inr unknown ↦ rw unknown (
            let l = log_if_monitored-Keeps error (missing_text target) now (count_resent w') in
            drops _ (l.manager ∙ k.manager ∙ keeps.manager) (l.sends ∙ k.sends ∙ keeps.sends))
      ]

  note_limited-Fate : (o : Outcome) → Fate w₀ o → Fate w₀ (note_limited now o)
  unfolding note_limited
  note_limited-Fate (continues w') f =
      Fate-Keeps f (log_if_monitored-Keeps info limited_text now w')
  note_limited-Fate (returns w') f = f
  note_limited-Fate (panics p) f = f

  limited-Fate :
      (raw : List ℕ) (m : BrokerMessage) (o : Option RateLimitRule)
      → Fate w₀ (limited lib now raw w (verdict lib now m w o))
  unfolding limited deliver fallback
  limited-Fate raw m none = delivered-Fate raw _
  limited-Fate raw m (some rule) =
      elim (Bool-cases (str_eq rule.breach_behaviour.action "discard")) [
        | inl e ↦ rw e (note_limited-Fate _ discard-Fate)
        | inr e ↦ rw e (note_limited-Fate _ (forward-Fate rule.breach_behaviour.target _))
      ]

  converted-Fate : (l : BrokerMessage) (o : Option (List ℕ)) → Fate w₀ (converted lib now l w o)
  unfolding converted
  converted-Fate l none =
      let k = die-Keeps lib.describe_marshal now w in
      drops_and_returns _ (k.manager ∙ keeps.manager) (k.sends ∙ keeps.sends)
  converted-Fate l (some raw) =
      rw (handle_rate_limiting-first_breach lib now l w) (limited-Fate raw l (first_breach w.rules))

  parsed-Fate : (x : BrokerMessage × Option Fault) → Fate w₀ (parsed lib now w x)
  unfolding parsed
  parsed-Fate (l, some fault) =
      let k = die-Keeps (lib.describe fault) now w in
      drops_and_returns _ (k.manager ∙ keeps.manager) (k.sends ∙ keeps.sends)
  parsed-Fate (l, none) = converted-Fate l _

pub receive-Fate :
    (lib : Library) (now : ℕ) (raw : List ℕ) (w : World) → Fate w (receive lib now raw w)
unfolding receive begin
receive-Fate lib now raw w =
    parsed-Fate lib now w (begin raw w) (record { manager = refl; sends = refl })
      (protobuf_to_broker lib.codecs raw)
