-- ===== src/Broker/Source/Counts.antt =====
-- Every message that a source puts on the channel is counted in flight for each of its targets.
use log_shipper.Base.{
  ℕ, ◌+◌, ◌*◌, ◌≡◌, refl, ap, ◌∙◌, String, Bool, true, false, Option, none, some, List, [], ◌∷◌,
  arith, if◌then◌else◌,
}
use log_shipper.Base.Lists.{length, length-append}
use log_shipper.Protocol.Input.{Fault, eof, io, malformed}
use log_shipper.Protocol.{Message}
use log_shipper.Message.{SourceMessage, protobuf_to_source}
use log_shipper.Monitoring.{Monitor}
use log_shipper.Broker.Manager.{add_message}
use log_shipper.Broker.Target.{Library}
use log_shipper.Broker.Source.{
  Source, Event, incoming, faulty, stopping, Turn, continues, returns, report_to, give_up, publish,
  wrap, begin_message, enter_state, take_message, take_fault, turn, after_turn, handle,
}

-- From `s` to `s'` the count has grown by one for each target of each message that was sent.
pub record Counted (s s' : Source) : Type 0 where
  pub same_targets : s'.targets ≡ s.targets
  pub counted :
      s'.manager.in_flight + length s.targets * length s.outbound
      ≡ s.manager.in_flight + length s.targets * length s'.outbound

abbrev after : Turn → Source
after (continues s) = s
after (returns s) = s

report_to-Counted :
    (s₀ s : Source) (text : String) (now : ℕ) (m : Option Monitor)
    → Counted s₀ s
    → Counted s₀ (report_to text now s m)
unfolding report_to
report_to-Counted s₀ s text now none c = c
report_to-Counted s₀ s text now (some m) c = record {
  same_targets = c.same_targets;
  counted = c.counted;
}

give_up-Counted : (s : Source) (text : String) (now : ℕ) → Counted s (after (give_up text now s))
unfolding give_up
give_up-Counted s text now =
    report_to-Counted s _ text now s.monitor (record { same_targets = refl; counted = refl })

publish-Counted :
    (lib : Library) (now : ℕ) (s : Source) (o : Option (List ℕ))
    → Counted s (after (publish lib now s o))
unfolding publish add_message
publish-Counted lib now s none = give_up-Counted s lib.describe_marshal now
publish-Counted lib now s (some raw) = record {
  same_targets = refl;
  counted = rw (length-append s.outbound (raw ∷ [])) (grind arith);
}

wrap-Counted :
    (lib : Library) (now : ℕ) (s : Source) (x : SourceMessage × Option Fault)
    → Counted s (after (wrap lib now s x))
unfolding wrap
wrap-Counted lib now s (m, some fault) = give_up-Counted s (lib.describe fault) now
wrap-Counted lib now s (m, none) = publish-Counted lib now s _

accept-Counted :
    (lib : Library) (now : ℕ) (m : Message) (s : Source) (is_source : Bool)
    → Counted s (
        after (
          if is_source
          then take_message lib now m (enter_state "waiting" s)
          else continues (enter_state "waiting" s)))
unfolding take_message begin_message
accept-Counted lib now m s true =
    let c =
      wrap-Counted lib now (begin_message m.payload (enter_state "waiting" s))
        (protobuf_to_source lib.codecs m.payload) in
    record { same_targets = c.same_targets; counted = c.counted }
accept-Counted lib now m s false = record { same_targets = refl; counted = refl }

turn-Counted :
    (lib : Library) (now : ℕ) (e : Event) (s : Source) → Counted s (after (turn lib now e s))
unfolding turn take_fault
turn-Counted lib now (incoming m) s = accept-Counted lib now m s _
turn-Counted lib now (faulty eof) s = record { same_targets = refl; counted = refl }
turn-Counted lib now (faulty (io n)) s =
    let c = give_up-Counted (enter_state "waiting" s) (lib.describe (io n)) now in
    record { same_targets = c.same_targets; counted = c.counted }
turn-Counted lib now (faulty (malformed n)) s =
    let c = give_up-Counted (enter_state "waiting" s) (lib.describe (malformed n)) now in
    record { same_targets = c.same_targets; counted = c.counted }
turn-Counted lib now stopping s = record { same_targets = refl; counted = refl }

-- Two growths of the same rate `n` make one.
chain :
    (a b c : ℕ) (x y z : ℕ) {n m : ℕ}
    → m ≡ n
    → b + n * x ≡ a + n * y
    → c + m * y ≡ b + m * z
    → c + n * x ≡ a + n * z
chain a b c x y z {n} {m} same sooner later = grind arith

Counted-trans : {s s' s'' : Source} → Counted s s' → Counted s' s'' → Counted s s''
Counted-trans {s} {s'} {s''} c d = record {
  same_targets = d.same_targets ∙ c.same_targets;
  counted =
      chain _ _ s''.manager.in_flight _ _ (length s''.outbound) (ap length c.same_targets) c.counted
        d.counted;
}

after_turn-Counted :
    (next : Source → Source) (s : Source) (t : Turn)
    → ((x : Source) → Counted x (next x))
    → Counted s (after t)
    → Counted s (after_turn next t)
unfolding after_turn
after_turn-Counted next s (continues x) h c = Counted-trans c (h x)
after_turn-Counted next s (returns x) h c = c

-- Over any run of the loop, the count of messages in flight grows by exactly one for each target of
-- each message that the loop puts on the channel of the workers.
handle-Counted : (lib : Library) (es : List (ℕ × Event)) (s : Source) → Counted s (handle lib es s)
unfolding handle
handle-Counted lib [] s = record { same_targets = refl; counted = refl }
handle-Counted lib ((now, e) ∷ es) s =
    after_turn-Counted (handle lib es) s (turn lib now e s) (handle-Counted lib es)
      (turn-Counted lib now e s)
