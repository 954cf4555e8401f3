-- ===== src/Broker/Pipeline.antt =====
-- broker/connector.go and broker/worker.go: the way of a message through the broker, from the
-- goroutine of its source by way of a worker to that of a target.
pub mod Arrival
mod Tests
use log_shipper.Base.{
  ℕ, zero, suc, ◌+◌, ◌≤◌, ◌<◌, ◌≡◌, refl, sym, ap, ◌∙◌, arith, String, Bool, true, false, Option,
  none, some, List, [], ◌∷◌, ◌++◌, map, append_assoc, append-nil, str_eq, if◌then◌else◌, Bool-cases,
  inl, inr, eq_iff,
}
use log_shipper.Base.Lists.{length, replicate}
use log_shipper.Protocol.{Message, command_target_log, Writer, send_hello, send_bye}
use log_shipper.Protocol.Stream.{write_messages}
use log_shipper.Message.{
  protobuf_to_source, protobuf_to_broker, to_protobuf, broker_to_target, source_to_broker,
}
use log_shipper.Broker.Manager.{Manager, finds_target}
use log_shipper.Broker.Target.{Library}
use log_shipper.Broker.Source.Goroutine.Lines.{Line}
use log_shipper.Broker.Source.Goroutine.Lines as Lines
use log_shipper.Broker.Target.Goroutine.Messages.{Item, log_frame}
use log_shipper.Broker.Target.Goroutine.Messages as Messages
use log_shipper.Broker.Worker.{Worker, Event, received, continues, turn}
use log_shipper.Broker.Worker.Sends.{copies, turn-copies}
use log_shipper.Broker.Worker.Loop.{loop}

-- What was handed to a target, and how often a list names it.
abbrev pub for_target : String → List (String × List ℕ) → List (List ℕ)
for_target t [] = []
for_target t ((u, raw) ∷ sends) =
    let rest = for_target t sends in if str_eq u t then raw ∷ rest else rest

abbrev pub times : String → List String → ℕ
times t [] = 0
times t (u ∷ targets) = let rest = times t targets in if str_eq u t then suc rest else rest

for_target-append :
    (t : String) (xs ys : List (String × List ℕ))
    → for_target t (xs ++ ys) ≡ for_target t xs ++ for_target t ys
for_target-append t [] ys = refl
for_target-append t ((u, raw) ∷ xs) ys = ground (arith, for_target-append t xs ys)

for_target-other :
    (t u : String) (raw : List ℕ) (sends : List (String × List ℕ)) (known : Bool)
    → str_eq u t ≡ false
    → for_target t (if known then (u, raw) ∷ sends else sends) ≡ for_target t sends
for_target-other t u raw sends true other = rw other refl
for_target-other t u raw sends false other = refl

for_target-copies :
    (m : Manager) (t : String) (raw : List ℕ) (targets : List String)
    → finds_target t m ≡ true
    → for_target t (copies m raw targets) ≡ replicate (times t targets) raw
for_target-copies m t raw [] known = refl
for_target-copies m t raw (u ∷ targets) known = elim (Bool-cases (str_eq u t)) [
  | inl same ↦
      rw (same, ap (λ x. finds_target x m) ((eq_iff u t).0 same) ∙ known)
        (rw same (ap (◌∷◌ raw) (for_target-copies m t raw targets known)))
  | inr other ↦ rw other (
      for_target-other t u raw (copies m raw targets) (finds_target u m) other
      ∙ for_target-copies m t raw targets known)
]

abbrev pub jobs : ℕ → List (List ℕ) → List (ℕ × Event)
jobs now raws = map (λ raw. (now, received raw)) raws

-- A message on its way: what the source sends and the broker makes of it, and what the target gets.
pub record Carried : Type 0 where
  pub line : Line
  pub out : List ℕ

abbrev pub lines_of : List Carried → List Line
lines_of cs = map (λ c. c.line) cs

abbrev pub raws_of : List Carried → List (List ℕ)
raws_of cs = map (λ c. c.line.raw) cs

abbrev pub frames_of : List Carried → List Message
frames_of cs = map (λ c. record { command = command_target_log; payload = c.out }) cs

module _ (lib : Library) (name : String) (targets : List String) (t : String) where
  -- The message can be parsed, marshalled for the broker and for the target, and what was marshalled
  -- for the broker says what it said.
  abbrev pub Good : Carried → Type 0
  Good c =
      let says = source_to_broker name targets c.line.says in
      (protobuf_to_source lib.codecs c.line.payload ≡ (c.line.says, none))
      × (to_protobuf lib.codecs.of_broker says ≡ some c.line.raw)
      × (protobuf_to_broker lib.codecs c.line.raw ≡ (says, none))
      × (to_protobuf lib.codecs.of_target (broker_to_target t says) ≡ some c.out)

  abbrev pub AllGood : List Carried → Type 0
  AllGood [] = Unit
  AllGood (c ∷ cs) = Good c × AllGood cs

  pub lines_good : (cs : List Carried) → AllGood cs → Lines.AllGood lib name targets (lines_of cs)
  lines_good [] good = tt
  lines_good (c ∷ cs) good = ((good.0.0, good.0.1), lines_good cs good.1)

  abbrev pub items_of : ℕ → List Carried → List Item
  items_of now [] = []
  items_of now (c ∷ cs) =
      record {
        now = now;
        raw = c.line.raw;
        says = source_to_broker name targets c.line.says;
        out = c.out;
      }
      ∷ items_of now cs

  pub items_good :
      (now : ℕ) (cs : List Carried) → AllGood cs → Messages.AllGood lib t (items_of now cs)
  items_good now [] good = tt
  items_good now (c ∷ cs) good = ((good.0.2, good.0.3), items_good now cs good.1)

  pub log_frame-items :
      (now : ℕ) (cs : List Carried) → map log_frame (items_of now cs) ≡ frames_of cs
  log_frame-items now [] = refl
  log_frame-items now (c ∷ cs) =
      ap (◌∷◌ (record { command = command_target_log; payload = c.out })) (log_frame-items now cs)

  -- A worker hands each message to a target that its source names once and the broker has.
  turn-Good :
      (now : ℕ) (c : Carried) (v : Worker)
      → Good c
      → finds_target t v.manager ≡ true
      → times t targets ≡ 1
      → (v' : Worker) × (turn lib now (received c.line.raw) v ≡ continues v')
        × (for_target t v'.sends ≡ for_target t v.sends ++ c.line.raw ∷ [])
        × (v'.manager ≡ v.manager)
  unfolding source_to_broker
  turn-Good now c v good known once =
      let one =
        turn-copies lib now c.line.raw (source_to_broker name targets c.line.says) v good.2 in
      (
        one.0,
        one.1,
        ap (for_target t) one.2
            ∙ for_target-append t v.sends (copies v.manager c.line.raw targets)
            ∙ ap (λ xs. for_target t v.sends ++ xs)
                (for_target-copies v.manager t c.line.raw targets known
                  ∙ ap (λ n. replicate n c.line.raw) once),
        one.3,
      )

  pub loop-Good :
      (now : ℕ) (cs : List Carried) (v : Worker)
      → AllGood cs
      → finds_target t v.manager ≡ true
      → times t targets ≡ 1
      → (v' : Worker) × (loop lib (jobs now (raws_of cs)) v ≡ continues v')
        × (for_target t v'.sends ≡ for_target t v.sends ++ raws_of cs)
  unfolding loop
  loop-Good now [] v good known once = (_, refl, sym (append-nil (for_target t v.sends)))
  loop-Good now (c ∷ cs) v good known once =
      let one = turn-Good now c v good.0 known once in
      let rest = loop-Good now cs one.0 good.1 (ap (finds_target t) one.3 ∙ known) once in
      (
        rest.0,
        rw (one.1) (rest.1),
        rest.2
            ∙ ap (λ xs. xs ++ raws_of cs) one.2
            ∙ append_assoc (for_target t v.sends) (c.line.raw ∷ []) (raws_of cs),
      )
