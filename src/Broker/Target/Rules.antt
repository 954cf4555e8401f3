-- ===== src/Broker/Target/Rules.antt =====
-- Which rate-limit rule decides about a message.
use log_shipper.Base.{
  ℕ, ◌≡◌, refl, Bool, ◌&&◌, ◌||◌, Option, none, some, List, [], ◌∷◌, arith, if◌then◌else◌, str_eq,
}
use log_shipper.Message.{BrokerMessage}
use log_shipper.Broker.Target.{
  Library, World, Checked, passed, stopped, RateLimitRule, is_over, discard, fallback, check_rules,
  handle_rate_limiting,
}

-- A rule decides if its limit is reached and its action is one of the two that the code knows.
abbrev pub decides : RateLimitRule → Bool
decides rule =
    is_over rule
    && (str_eq rule.breach_behaviour.action "discard"
        || str_eq rule.breach_behaviour.action "fallback")

abbrev pub first_breach : List RateLimitRule → Option RateLimitRule
first_breach [] = none
first_breach (rule ∷ rules) =
    let rest = first_breach rules in if decides rule then some rule else rest

-- What the deciding rule does.
abbrev pub verdict : Library → ℕ → BrokerMessage → World → Option RateLimitRule → Checked
verdict lib now m w none = passed
verdict lib now m w (some rule) =
    if str_eq rule.breach_behaviour.action "discard"
    then stopped (discard w)
    else stopped (fallback lib now rule.breach_behaviour.target m w)

check_rules-first_breach :
    (lib : Library) (now : ℕ) (m : BrokerMessage) (w : World) (rules : List RateLimitRule)
    → check_rules lib now m w rules ≡ verdict lib now m w (first_breach rules)
unfolding check_rules
check_rules-first_breach lib now m w [] = refl
check_rules-first_breach lib now m w (rule ∷ rules) =
    ground (arith, check_rules-first_breach lib now m w rules)

-- A message passes exactly if no rule decides, and else the first rule that does settles it.
pub handle_rate_limiting-first_breach :
    (lib : Library) (now : ℕ) (m : BrokerMessage) (w : World)
    → handle_rate_limiting lib now m w ≡ verdict lib now m w (first_breach w.rules)
unfolding handle_rate_limiting
handle_rate_limiting-first_breach lib now m w = check_rules-first_breach lib now m w w.rules
