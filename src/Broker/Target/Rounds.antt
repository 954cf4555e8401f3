-- ===== src/Broker/Target/Rounds.antt =====
-- What a round of a target's loop does to the messages in flight.
use mathlib.Core.Path.{subst}
use mathlib.Core.Option.{some-injective}
use log_shipper.Base.{
  ℕ, zero, suc, ◌≡◌, refl, sym, ap, ◌∙◌, ◌≢◌, String, Bool, true, false, Option, none, some, List,
  [], ◌∷◌, ◌++◌, if◌then◌else◌, str_eq, Bool-cases, inl, inr,
}
use log_shipper.Base.Lists.{length, All}
use log_shipper.Protocol.{Codec, Writer}
use log_shipper.Protocol.Input.{Fault}
use log_shipper.Message.{BrokerMessage, to_protobuf, protobuf_to_broker}
use log_shipper.Monitoring.{Level, Monitor, info}
use log_shipper.Broker.Manager.{Manager, finds_target, done, complete, complete_message}
use log_shipper.Broker.Target.{
  Library, World, Outcome, continues, returns, panics, stopped, RateLimitRule, discard, fallback,
  forward, redirected, set_state, log_to, log_if_monitored, completed, completing, error_text,
  log_unanswered, unanswered, answered, delivered, deliver, note_limited, limited, converted,
  parsed, begin, receive, count_for_rules, fallback_text, limited_text,
}
use log_shipper.Broker.Target.Rules.{
  decides, first_breach, verdict, handle_rate_limiting-first_breach,
}

-- A log changes the connection's last log and the monitor only.
pub record Keeps (w w' : World) : Type 0 where
  pub manager : w'.manager ≡ w.manager
  pub sends : w'.sends ≡ w.sends

pub log_if_monitored-Keeps :
    (level : Level) (text : String) (now : ℕ) (w : World)
    → Keeps w (log_if_monitored level text now w)
unfolding log_if_monitored
log_if_monitored-Keeps level text now w = go w.monitor
  where
    go : (m : Option Monitor) → Keeps w (log_to level text now w m)
    go none = record { manager = refl; sends = refl }
    go (some m) = record { manager = refl; sends = refl }

-- A message is settled if its count in the wait group is released, or if it is handed to another
-- target together with its count.
pub data Settled (w w' : World) : Type 0 where
  released : suc w'.manager.in_flight ≡ w.manager.in_flight → w'.sends ≡ w.sends → Settled w w'
  handed_on :
      (target : String) (raw : List ℕ)
      → finds_target target w.manager ≡ true
      → w'.manager ≡ w.manager
      → w'.sends ≡ w.sends ++ (target, raw) ∷ []
      → Settled w w'

-- A loop that goes on has settled its message.
abbrev pub Settles : World → Outcome → Type 0
Settles w (continues w') = Settled w w'
Settles w (returns w') = Unit
Settles w (panics p) = Unit

Settled-Keeps : {w w' w'' : World} → Settled w w' → Keeps w' w'' → Settled w w''
Settled-Keeps (released e s) k = released (ap (λ m. suc m.in_flight) k.manager ∙ e) (k.sends ∙ s)
Settled-Keeps (handed_on t raw f m s) k = handed_on t raw f (k.manager ∙ m) (k.sends ∙ s)

completing-Settles :
    (w₀ w : World) (next : World → Outcome)
    → Keeps w₀ w
    → ((w' : World)
        → suc w'.manager.in_flight ≡ w₀.manager.in_flight
        → w'.sends ≡ w₀.sends
        → Settles w₀ (next w'))
    → Settles w₀ (completing w next)
unfolding completing complete_message
completing-Settles w₀ w next k h = go w.manager.in_flight refl
  where
    go :
        (n : ℕ)
        → w.manager.in_flight ≡ n
        → Settles w₀ (completed w next (complete w.manager (done n)))
    go zero e = tt
    go (suc n) e = h _ (sym e ∙ ap (λ m. m.in_flight) k.manager) k.sends

pub same : {w : World} → Keeps w w
same = record { manager = refl; sends = refl }

discard-Settles : (w : World) → Settles w (discard w)
unfolding discard
discard-Settles w = completing-Settles w w _ same (λ w' e s. released e s)

answered-Settles :
    (lib : Library) (now : ℕ) (w₀ : World) (bytes : ℕ) (w : World) (ok : Bool)
    → Keeps w₀ w
    → Settles w₀ (answered lib now none bytes w ok)
unfolding answered unanswered error_text log_unanswered count_for_rules
answered-Settles lib now w₀ bytes w true k =
    completing-Settles w₀ (count_for_rules bytes w) _
      (record { manager = k.manager; sends = k.sends }) (λ w' e s. released e s)
answered-Settles lib now w₀ bytes w false k =
    completing-Settles w₀ w _ k (λ w' e s. go (set_state "dead" w') w'.monitor)
  where
    go : (w' : World) (m : Option Monitor) → Settles w₀ (unanswered lib now none w' m)
    go w' none = tt
    go w' (some m) = tt

delivered-Settles :
    (w₀ : World) (lib : Library) (now : ℕ) (raw : List ℕ) (w : World) (x : Option Fault × Writer)
    → Keeps w₀ w
    → Settles w₀ (delivered lib now raw w x)
unfolding delivered
delivered-Settles w₀ lib now raw w (some fault, writer) k = tt
delivered-Settles w₀ lib now raw w (none, writer) k =
    answered-Settles lib now w₀ (length raw) _ _ (record { manager = k.manager; sends = k.sends })

-- What the rules need so that no message is lost: protobuf can marshal every message, and each
-- fallback names a target of the broker.
abbrev pub Marshals : {M : Type 0} → Codec M → Type 0
Marshals {M} c = (m : M) → c.marshal m ≢ none

abbrev pub IsReachable : Manager → RateLimitRule → Type 0
IsReachable m rule =
    (str_eq rule.breach_behaviour.action "discard" ≡ false)
    → finds_target rule.breach_behaviour.target m ≡ true

fallback-Settles :
    (lib : Library) (now : ℕ) (target : String) (m : BrokerMessage) (w : World)
    → Marshals lib.codecs.of_broker
    → finds_target target w.manager ≡ true
    → Settles w (fallback lib now target m w)
unfolding fallback to_protobuf
fallback-Settles lib now target m w all known =
    go (lib.codecs.of_broker.marshal (redirected target m)) refl
  where
    go :
        (o : Option (List ℕ))
        → lib.codecs.of_broker.marshal (redirected target m) ≡ o
        → Settles w (forward lib now target w o)
    go none e = absurd (all _ e)
    go (some raw) e =
        let k = log_if_monitored-Keeps info (fallback_text target) now w in
        rw (ap (finds_target target) k.manager ∙ known)
          (handed_on target raw known k.manager (ap (λ s. s ++ (target, raw) ∷ []) k.sends))

note_limited-Settles :
    (w : World) (now : ℕ) (o : Outcome) → Settles w o → Settles w (note_limited now o)
unfolding note_limited
note_limited-Settles w now (continues w') s =
    Settled-Keeps s (log_if_monitored-Keeps info limited_text now w')
note_limited-Settles w now (returns w') s = tt
note_limited-Settles w now (panics p) s = tt

first_breach-IsReachable :
    (m : Manager) (rules : List RateLimitRule) (rule : RateLimitRule)
    → All (IsReachable m) rules
    → first_breach rules ≡ some rule
    → IsReachable m rule
first_breach-IsReachable m [] rule all e = cc
first_breach-IsReachable m (r ∷ rules) rule all e = elim (Bool-cases (decides r)) [
  | inl here ↦ subst (IsReachable m) (some-injective _ _ (rw here at e)) all.0
  | inr later ↦ first_breach-IsReachable m rules rule all.1 (rw later at e)
]

-- What the proofs about one round share.
module _ (lib : Library) (now : ℕ) (w : World) (all : Marshals lib.codecs.of_broker) where
  verdict-Settles :
      (raw : List ℕ) (m : BrokerMessage) (o : Option RateLimitRule)
      → ((rule : RateLimitRule) → o ≡ some rule → IsReachable w.manager rule)
      → Settles w (limited lib now raw w (verdict lib now m w o))
  unfolding limited deliver
  verdict-Settles raw m none known = delivered-Settles w lib now raw w _ same
  verdict-Settles raw m (some rule) known = go (str_eq rule.breach_behaviour.action "discard") refl
    where
      go :
          (b : Bool)
          → str_eq rule.breach_behaviour.action "discard" ≡ b
          → Settles w (
              limited lib now raw w (
                if b
                then stopped (discard w)
                else stopped (fallback lib now rule.breach_behaviour.target m w)))
      go true e = note_limited-Settles w now _ (discard-Settles w)
      go false e =
          note_limited-Settles w now _
            (fallback-Settles lib now rule.breach_behaviour.target m w all (known rule refl e))

  module _ (reach : All (IsReachable w.manager) w.rules) where
    converted-Settles :
        (l : BrokerMessage) (o : Option (List ℕ)) → Settles w (converted lib now l w o)
    unfolding converted
    converted-Settles l none = tt
    converted-Settles l (some raw) = rw (handle_rate_limiting-first_breach lib now l w) (
        verdict-Settles raw l (first_breach w.rules)
          (λ rule e. first_breach-IsReachable w.manager w.rules rule reach e))

    parsed-Settles : (x : BrokerMessage × Option Fault) → Settles w (parsed lib now w x)
    unfolding parsed
    parsed-Settles (l, some fault) = tt
    parsed-Settles (l, none) = converted-Settles l _

begin-Settles : (raw : List ℕ) (w : World) (o : Outcome) → Settles (begin raw w) o → Settles w o
unfolding begin
begin-Settles raw w (continues w') (released e s) = released e s
begin-Settles raw w (continues w') (handed_on t r f m s) = handed_on t r f m s
begin-Settles raw w (returns w') s = tt
begin-Settles raw w (panics p) s = tt

-- Where protobuf marshals every broker message and each fallback names a target of the broker, a
-- round of the loop that goes on has either released one count of the wait group and sent nothing
-- on, or left the manager alone and handed exactly one message to a target that the broker has.
pub receive-Settles :
    (lib : Library) (now : ℕ) (raw : List ℕ) (w : World)
    → Marshals lib.codecs.of_broker
    → All (IsReachable w.manager) w.rules
    → Settles w (receive lib now raw w)
unfolding receive begin
receive-Settles lib now raw w all reach =
    begin-Settles raw w (receive lib now raw w)
      (parsed-Settles lib now (begin raw w) all reach (protobuf_to_broker lib.codecs raw))
