-- ===== src/Broker/Source/Moves.antt =====
-- What a round of a source does to the shared manager and to the channel of the workers.
use log_shipper.Base.{
  ℕ, ◌≡◌, refl, ap, ◌∙◌, String, Bool, true, false, Option, none, some, List, [], ◌∷◌, ◌++◌,
  if◌then◌else◌,
}
use log_shipper.Base.Lists.{length}
use log_shipper.Protocol.Input.{Fault, eof, io, malformed}
use log_shipper.Message.{SourceMessage, protobuf_to_source}
use log_shipper.Monitoring.{Monitor}
use log_shipper.Broker.Manager.{add_message}
use log_shipper.Broker.Target.{Library}
use log_shipper.Broker.Source.{
  Source, Event, incoming, faulty, stopping, Turn, continues, returns, report_to, give_up, publish,
  wrap, begin_message, enter_state, take_message, take_fault, turn,
}

-- What a round of a source does to the manager and to the channel of the workers.
pub data Move (x : Source) : Turn → Type 0 where
  waits : (x' : Source) → x'.manager ≡ x.manager → x'.outbound ≡ x.outbound → Move x (continues x')
  publishes :
      (raw : List ℕ) (x' : Source)
      → x'.manager ≡ add_message (length x.targets) x.manager
      → x'.outbound ≡ x.outbound ++ raw ∷ []
      → Move x (continues x')
  ends : (x' : Source) → x'.manager ≡ x.manager → x'.outbound ≡ x.outbound → Move x (returns x')

-- `y` differs from `x` in its connection only.
record Like (x y : Source) : Type 0 where
  manager : y.manager ≡ x.manager
  outbound : y.outbound ≡ x.outbound
  targets : y.targets ≡ x.targets

module _ (x y : Source) (like : Like x y) where
  give_up-Move : (text : String) (now : ℕ) → Move x (give_up text now y)
  unfolding give_up report_to
  give_up-Move text now = go y.monitor
    where
      go : (m : Option Monitor) → Move x (returns (report_to text now (enter_state "dead" y) m))
      go none = ends _ like.manager like.outbound
      go (some m) = ends _ like.manager like.outbound

  publish-Move : (lib : Library) (now : ℕ) (o : Option (List ℕ)) → Move x (publish lib now y o)
  unfolding publish
  publish-Move lib now none = give_up-Move lib.describe_marshal now
  publish-Move lib now (some raw) =
      publishes raw _
        (ap (add_message (length y.targets)) like.manager
          ∙ ap (λ ts. add_message (length ts) x.manager) like.targets)
        (ap (λ out. out ++ raw ∷ []) like.outbound)

  wrap-Move :
      (lib : Library) (now : ℕ) (got : SourceMessage × Option Fault) → Move x (wrap lib now y got)
  unfolding wrap
  wrap-Move lib now (m, some fault) = give_up-Move (lib.describe fault) now
  wrap-Move lib now (m, none) = publish-Move lib now _

waiting-Like : (x : Source) → Like x (enter_state "waiting" x)
waiting-Like x = record { manager = refl; outbound = refl; targets = refl }

pub turn-Move : (lib : Library) (now : ℕ) (e : Event) (x : Source) → Move x (turn lib now e x)
unfolding turn take_fault take_message begin_message
turn-Move lib now (incoming m) x = go _
  where
    go :
        (is_source : Bool)
        → Move x (
            if is_source
            then take_message lib now m (enter_state "waiting" x)
            else continues (enter_state "waiting" x))
    go true =
        wrap-Move x (begin_message m.payload (enter_state "waiting" x))
          (record { manager = refl; outbound = refl; targets = refl }) lib now
          (protobuf_to_source lib.codecs m.payload)
    go false = waits _ refl refl
turn-Move lib now (faulty eof) x = ends _ refl refl
turn-Move lib now (faulty (io n)) x = give_up-Move x _ (waiting-Like x) (lib.describe (io n)) now
turn-Move lib now (faulty (malformed n)) x =
    give_up-Move x _ (waiting-Like x) (lib.describe (malformed n)) now
turn-Move lib now stopping x = ends _ refl refl
