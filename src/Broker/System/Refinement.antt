-- ===== src/Broker/System/Refinement.antt =====
-- The rounds of the connectors of broker/connector.go, in their detail, are steps of the running
-- broker.
use log_shipper.Base.{
  ℕ, zero, suc, ◌-◌, ◌≤◌, ◌≡◌, refl, sym, ap, ◌∙◌, arith, ◌⊎◌, inl, inr, String, some, List, [],
  ◌∷◌, ◌++◌,
}
use mathlib.Core.Option.{none-ne-some}
use log_shipper.Broker.Manager.{Manager, nil_dereference, complete_message, finds_target, done}
use log_shipper.Broker.Target.{Library, World, Outcome, receive}
use log_shipper.Broker.Target as Target
use log_shipper.Broker.Target.Fates.{
  Fate, completes, hands_on, drops, completes_and_returns, drops_and_returns, finds_no_count,
  logs_no_error, receive-Fate,
}
use log_shipper.Broker.System.{
  Activity, working, sending, System, Pick, Step, fall_back, lose, lose_and_return,
  complete_and_return, launched, Reach,
}
use log_shipper.Broker.System.Counting.{
  Inv, Reach-Inv, launched-Inv, Pick-length, complete_message-Completed,
}
use log_shipper.Broker.System.Shutdown.{complete_some}

-- A target of the running broker works on a message: its goroutine sees the manager, and is counted.
pub record AtWork (s : System) (w : World) (rest : List (String × Activity)) : Type 0 where
  pub manager : w.manager ≡ s.manager
  pub picked : Pick (w.name, working) s.active rest
  pub counted : 1 ≤ s.manager.target_wait

-- The deferred `WaitGroup.Done` of a target's goroutine.
abbrev pub leave : Manager → Manager
leave m = record m { target_wait = m.target_wait - 1 }

-- What a round hands to other targets, and what the target is doing then.
abbrev pub Passed : World → World → List (String × Activity) → List (String × Activity) → Type 0
Passed w w' rest active =
    ((active ≡ rest) × (w'.sends ≡ w.sends))
    ⊎ ((u : String) × (raw : List ℕ) × (active ≡ (w.name, sending u) ∷ rest)
        × (w'.sends ≡ w.sends ++ (u, raw) ∷ []))

-- A step of the broker with the outcome of a round.
abbrev pub Explained : System → World → List (String × Activity) → Outcome → Type 0
Explained s w rest (Target.continues w') =
    (t : System) × Step s t
    × (t.manager ≡ w'.manager)
    × (t.ended ≡ s.ended)
    × Passed w w' rest t.active
Explained s w rest (Target.returns w') =
    (t : System) × Step s t
    × (t.manager ≡ leave w'.manager)
    × (t.ended ≡ w.name ∷ s.ended)
    × (t.active ≡ rest)
    × (w'.sends ≡ w.sends)
Explained s w rest (Target.panics p) = p ≡ nil_dereference

pub done-some : (n : ℕ) → 1 ≤ n → done n ≡ some (n - 1)
done-some zero h = absurd (omega arith)
done-some (suc n) h = ap some (omega arith)

explain :
    {s : System} {w : World} {rest : List (String × Activity)} {o : Outcome}
    → Inv s
    → AtWork s w rest
    → Fate w o
    → Explained s w rest o
explain inv at (completes w' e same) = (
  _,
  Step.complete at.picked (ap complete_message (sym at.manager) ∙ e),
  refl,
  refl,
  inl (refl, same),
)
explain inv at (hands_on u raw w' f m same) = (
  _,
  fall_back u at.picked (ap (finds_target u) (sym at.manager) ∙ f),
  sym (m ∙ at.manager),
  refl,
  inr (u, raw, refl, same),
)
explain inv at (drops w' m same) = (_, lose at.picked, sym (m ∙ at.manager), refl, inl (refl, same))
explain {s} inv at (completes_and_returns w' e same) =
    let e' = ap complete_message (sym at.manager) ∙ e in
    let counted : 1 ≤ w'.manager.target_wait =
      omega (arith, at.counted, (complete_message-Completed s.manager e').same_target_wait) in
    (_, complete_and_return at.picked e' (done-some _ counted), refl, refl, refl, same)
explain inv at (drops_and_returns w' m same) = (
  _,
  lose_and_return at.picked (done-some _ at.counted),
  ap leave (sym (m ∙ at.manager)),
  refl,
  refl,
  same,
)
explain {s} inv at (finds_no_count e) =
    let some_count = complete_some s.manager (omega (arith, Pick-length at.picked, inv.messages)) in
    absurd (none-ne-some some_count.0 (sym e ∙ ap complete_message at.manager ∙ some_count.1))
explain inv at (logs_no_error m e) = refl

module _ (sources targets : List String) (workers : ℕ) where
  -- In every state that a broker reaches, a round of a target that works on a message is a step of
  -- the broker: the round goes on with the message completed, lost or waiting in a fallback, or its
  -- goroutine returns with the message completed or lost, and the manager is the same in both; the
  -- only panic is that of the log for a missing answer.
  pub receive-Explained :
      {s : System} {rest : List (String × Activity)} (w : World)
      → Reach (launched sources targets workers) s
      → AtWork s w rest
      → (lib : Library) (now : ℕ) (raw : List ℕ) → Explained s w rest (receive lib now raw w)
  receive-Explained w r at lib now raw =
      explain (Reach-Inv (launched-Inv sources targets workers) r) at (receive-Fate lib now raw w)
