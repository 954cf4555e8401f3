-- ===== src/Web/Breaches.antt =====
-- The breaches that the API shows, against the rate limits that the connector of a target checks.
use log_shipper.Base.{
  ℕ, ◌+◌, ◌≡◌, refl, Bool, true, false, not, ◌&&◌, ◌||◌, List, [], ◌∷◌, ◌++◌, map, arith, str_eq,
  Bool-cases, inl, inr,
}
use log_shipper.Limiter.{RateLimiter}
use log_shipper.Message.{BrokerMessage}
use log_shipper.Monitoring.{Connection, Monitor}
use log_shipper.Broker.Target.{
  Library, World, Checked, passed, stopped, RateLimitRule, is_over, handle_rate_limiting,
}
use log_shipper.Broker.Target.Rules.{first_breach, verdict, handle_rate_limiting-first_breach}
use log_shipper.Web.{
  ApiTarget, ApiRateLimiter, Texts, HttpClient, status_ok, get_targets, list_targets, show_target,
  show_limiters, show_limiter,
}

abbrev pub shows_breach : List ApiRateLimiter → Bool
shows_breach [] = false
shows_breach (r ∷ limiters) = r.average_breached || shows_breach limiters

abbrev pub passes : Checked → Bool
passes passed = true
passes (stopped o) = false

-- The action of each rule is one that the code knows.
abbrev pub all_actions_known : List RateLimitRule → Bool
all_actions_known [] = true
all_actions_known (rule ∷ rules) =
    (str_eq rule.breach_behaviour.action "discard"
      || str_eq rule.breach_behaviour.action "fallback")
    && all_actions_known rules

abbrev pub limiters_in : List RateLimitRule → List RateLimiter
limiters_in rules = map (λ rule. rule.rate_limiter) rules

verdict-passes :
    (lib : Library) (now : ℕ) (m : BrokerMessage) (w : World) (texts : Texts) (i : ℕ)
    (rules : List RateLimitRule)
    → all_actions_known rules ≡ true
    → passes (verdict lib now m w (first_breach rules))
      ≡ not (shows_breach (show_limiters texts i (limiters_in rules)))
unfolding is_over show_limiters show_limiter
verdict-passes lib now m w texts i [] known = refl
verdict-passes lib now m w texts i (rule ∷ rules) known =
    ground (arith, verdict-passes lib now m w texts (i + 1) rules)

list_targets-append :
    (texts : Texts) (limiters_of : Connection → List RateLimiter) (before after : List Connection)
    → list_targets texts limiters_of (before ++ after)
      ≡ list_targets texts limiters_of before ++ list_targets texts limiters_of after
unfolding list_targets
list_targets-append texts limiters_of [] after = refl
list_targets-append texts limiters_of (c ∷ before) after =
    elim (Bool-cases (str_eq c.connection_type "target")) [
      | inl e ↦ rw (list_targets-append texts limiters_of before after, e) refl
      | inr e ↦ rw (list_targets-append texts limiters_of before after, e) refl
    ]

-- Where the monitor has the connection of a target, with the limiters of its rules, and the action of
-- each rule is known, the view of the targets has a row for it that shows a breach of an average
-- exactly if the rate limits stop a message for the target.
pub get_targets-breaches :
    (texts : Texts) {R : Type 0} (client : HttpClient R (List ApiTarget))
    (limiters_of : Connection → List RateLimiter) (monitor : Monitor)
    (before after : List Connection) (lib : Library) (now : ℕ) (m : BrokerMessage) (w : World)
    → monitor.connections ≡ before ++ w.connection ∷ after
    → w.connection.connection_type ≡ "target"
    → limiters_of w.connection ≡ limiters_in w.rules
    → all_actions_known w.rules ≡ true
    → (earlier later : List ApiTarget) × (row : ApiTarget) × (get_targets texts client ""
          limiters_of monitor
        ≡ status_ok (earlier ++ row ∷ later))
      × (row.id ≡ w.connection.name)
      × (passes (handle_rate_limiting lib now m w) ≡ not (shows_breach row.rate_limiters))
unfolding get_targets list_targets show_target
get_targets-breaches texts client limiters_of monitor before after lib now m w there is_target own
      known =
    (
      list_targets texts limiters_of before,
      list_targets texts limiters_of after,
      show_target texts w.connection (limiters_of w.connection),
      rw (there, list_targets-append texts limiters_of before (w.connection ∷ after), is_target)
          refl,
      refl,
      rw (own, handle_rate_limiting-first_breach lib now m w)
          (verdict-passes lib now m w texts 0 w.rules known),
    )
