-- ===== src/Broker/System/Sources.antt =====
-- The rounds of the source connectors of broker/connector.go, in their detail, are steps of the
-- running broker.
use log_shipper.Base.{
  ℕ, ◌+◌, ◌-◌, ◌≤◌, ◌≡◌, refl, sym, ap, ◌∙◌, arith, ◌⊎◌, inl, inr, String, List, [], ◌∷◌, ◌++◌,
}
use log_shipper.Base.Lists.{length}
use log_shipper.Broker.Manager.{Manager, add_message}
use log_shipper.Broker.Target.{Library}
use log_shipper.Broker.Source.{Source, Event, Turn, turn}
use log_shipper.Broker.Source as Source
use log_shipper.Broker.Source.Moves.{Move, waits, publishes, ends, turn-Move}
use log_shipper.Broker.System.{System, Step, publish, source_returns, launched, Reach}
use log_shipper.Broker.System.Counting.{Inv, Reach-Inv, launched-Inv}
use log_shipper.Broker.System.Refinement.{done-some}

-- The deferred `WaitGroup.Done` of a source's goroutine.
abbrev pub leave : Manager → Manager
leave m = record m { source_wait = m.source_wait - 1 }

-- A step of the broker, or none, with the outcome of a round.
abbrev pub Explained : System → Source → Turn → Type 0
Explained s x (Source.continues x') =
    ((x'.manager ≡ s.manager) × (x'.outbound ≡ x.outbound))
    ⊎ ((t : System) × (raw : List ℕ) × Step s t
        × (t.manager ≡ x'.manager)
        × (t.published ≡ x.targets ∷ s.published)
        × (x'.outbound ≡ x.outbound ++ raw ∷ []))
Explained s x (Source.returns x') =
    (t : System) × Step s t
    × (t.manager ≡ leave x'.manager)
    × (t.reading + 1 ≡ s.reading)
    × (x'.outbound ≡ x.outbound)

explain :
    {s : System} {x : Source} {o : Turn}
    → Inv s
    → x.manager ≡ s.manager
    → 1 ≤ s.reading
    → Move x o
    → Explained s x o
explain {s} inv sees reads (waits x' m same) = inl (m ∙ sees, same)
explain {s} {x} inv sees reads (publishes raw x' m same) = inr (
  _,
  raw,
  publish x.targets {n = s.reading - 1} (omega (arith, reads)),
  ap (add_message (length x.targets)) (sym sees) ∙ sym m,
  refl,
  same,
)
explain {s} inv sees reads (ends x' m same) =
    let counted : 1 ≤ s.manager.source_wait = omega (arith, inv.sources) in
    (
      _,
      source_returns {n = s.reading - 1} (omega (arith, reads)) (done-some _ counted),
      ap leave (sym (m ∙ sees)),
      omega (arith, reads),
      same,
    )

module _ (sources targets : List String) (workers : ℕ) where
  -- In every state that a broker reaches, a round of a source that reads, for whatever event, is a
  -- step of the broker: the loop goes on with nothing done, or with one message counted for each
  -- target of the source and put on the channel of the workers, or its goroutine returns; and the
  -- manager is the same in both.
  pub turn-Explained :
      {s : System} (x : Source)
      → Reach (launched sources targets workers) s
      → x.manager ≡ s.manager
      → 1 ≤ s.reading
      → (lib : Library) (now : ℕ) (e : Event) → Explained s x (turn lib now e x)
  turn-Explained x r sees reads lib now e =
      explain (Reach-Inv (launched-Inv sources targets workers) r) sees reads
        (turn-Move lib now e x)
