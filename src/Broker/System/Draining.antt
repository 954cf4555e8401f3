-- ===== src/Broker/System/Draining.antt =====
-- How a running broker delivers what it holds: the targets complete their messages, the workers hand
-- theirs to the targets, and the sources hand over theirs.
use log_shipper.Base.{
  ℕ, suc, ◌+◌, ◌≡◌, refl, ap, sym, ◌∙◌, arith, String, Bool, true, false, List, [], ◌∷◌,
}
use mathlib.Core.Path.{subst}
use log_shipper.Base.Lists.{length}
use log_shipper.Broker.Manager.{Manager, contains, finds_target}
use log_shipper.Broker.System.{
  Phase, waits_for_sources, Activity, working, sending, System, here, Step, hand_over, send,
  worker_waits, Reach, start, later,
}
use log_shipper.Broker.System.Counting.{Inv, Reach-Inv, complete_message-Completed}
use log_shipper.Broker.System.Shutdown.{append-Reach, complete_some}

-- All targets with a message work on it: none waits in a fallback.
abbrev pub all_work : List (String × Activity) → Bool
all_work [] = true
all_work ((t, working) ∷ active) = all_work active
all_work ((t, sending u) ∷ active) = false

-- The broker has the targets.
abbrev pub Known : List String → List String → Type 0
Known names [] = Unit
Known names (t ∷ ts) = (contains t names ≡ true) × Known names ts

abbrev pub AllKnown : List String → List (List String) → Type 0
AllKnown names [] = Unit
AllKnown names (targets ∷ rest) = Known names targets × AllKnown names rest

-- A broker whose targets are all there, and that has lost nothing.
abbrev pub sound :
    Manager
    → ℕ
    → ℕ
    → ℕ
    → List (List String)
    → List (List String)
    → List (String × Activity)
    → Phase
    → System
sound m workers reading waiting published carried active phase = record {
  manager = m;
  workers = workers;
  reading = reading;
  waiting = waiting;
  published = published;
  carried = carried;
  active = active;
  ended = [];
  lost = 0;
  phase = phase;
}

-- A run from a state to one that the second argument gives for a manager with the same targets.
abbrev pub Leads : System → (Manager → System) → Type 0
Leads s next =
    (m : Manager) × Reach s (next m) × (m.target_connectors ≡ s.manager.target_connectors)

pub chain :
    {s : System} {next : Manager → System} {last : Manager → System}
    → ((m : Manager) → (next m).manager ≡ m)
    → (l : Leads s next) → Leads (next l.0) last
    → Leads s last
chain same (m, r, e) (m', r', e') =
    (m', append-Reach r r', e' ∙ ap (λ x. x.target_connectors) (same m) ∙ e)

pub after :
    {s t : System} {next : Manager → System}
    → Reach s t
    → t.manager.target_connectors ≡ s.manager.target_connectors
    → Leads t next
    → Leads s next
after r e (m, q, e') = (m, append-Reach r q, e' ∙ e)

module _ (workers reading : ℕ) where
  complete_head :
      (m : Manager) (t : String) (waiting : ℕ) (published carried : List (List String))
      (rest : List (String × Activity))
      → Inv (
          sound m workers reading waiting published carried ((t, working) ∷ rest) waits_for_sources)
      → Leads
          (sound m workers reading waiting published carried
            ((t, working) ∷ rest)
            waits_for_sources)
          (λ m. sound m workers reading waiting published carried rest waits_for_sources)
  complete_head m t waiting published carried rest inv =
      let done = complete_some m (omega (arith, inv.messages)) in
      (
        done.0,
        later start (Step.complete (here rest) done.1),
        (complete_message-Completed m done.1).same_targets,
      )

  pub complete_all :
      (m : Manager) (waiting : ℕ) (published carried : List (List String))
      (active : List (String × Activity))
      → all_work active ≡ true
      → Inv (sound m workers reading waiting published carried active waits_for_sources)
      → Leads
          (sound m workers reading waiting published carried active waits_for_sources)
          (λ m. sound m workers reading waiting published carried [] waits_for_sources)
  complete_all m waiting published carried [] h inv = (m, start, refl)
  complete_all m waiting published carried ((t, sending u) ∷ rest) h inv =
      absurd (ground (arith, h))
  complete_all m waiting published carried ((t, working) ∷ rest) h inv =
      let first = complete_head m t waiting published carried rest inv in
      chain (λ m. refl) first
        (complete_all first.0 waiting published carried rest h (Reach-Inv inv first.1))

  -- A worker hands its message to its targets, one after the other, and waits again.
  deliver :
      (m : Manager) (waiting : ℕ) (published rest : List (List String)) (targets : List String)
      → Known m.target_connectors targets
      → Inv (sound m workers reading waiting published (targets ∷ rest) [] waits_for_sources)
      → Leads
          (sound m workers reading waiting published (targets ∷ rest) [] waits_for_sources)
          (λ m. sound m workers reading (waiting + 1) published rest [] waits_for_sources)
  unfolding finds_target
  deliver m waiting published rest [] known inv = (m, later start (worker_waits (here rest)), refl)
  deliver m waiting published rest (t ∷ targets) known inv =
      let sent = later start (send (here rest) known.0 (refl, refl)) in
      let done = complete_head m t waiting published (targets ∷ rest) [] (Reach-Inv inv sent) in
      let first = after sent refl done in
      chain (λ m. refl) first
        (deliver first.0 waiting published rest targets
          (subst (λ names. Known names targets) (sym first.2) known.1) (Reach-Inv inv first.1))

  pub deliver_all :
      (m : Manager) (waiting : ℕ) (published carried : List (List String))
      → AllKnown m.target_connectors carried
      → Inv (sound m workers reading waiting published carried [] waits_for_sources)
      → Leads
          (sound m workers reading waiting published carried [] waits_for_sources)
          (λ m. sound m workers reading workers published [] [] waits_for_sources)
  deliver_all m waiting published [] known inv = (
    m,
    subst
        (λ n.
          Reach (sound m workers reading waiting published [] [] waits_for_sources)
            (sound m workers reading n published [] [] waits_for_sources))
        (omega (arith, inv.worker_group)) start,
    refl,
  )
  deliver_all m waiting published (targets ∷ rest) known inv =
      let first = deliver m waiting published rest targets known.0 inv in
      chain (λ m. refl) first
        (deliver_all first.0 (waiting + 1) published rest
          (subst (λ names. AllKnown names rest) (sym first.2) known.1) (Reach-Inv inv first.1))

-- The sources hand over what they hold, and the workers deliver it.
pub hand_over_all :
    (workers reading total : ℕ) (m : Manager) (published : List (List String))
    → reading + length published ≡ total
    → AllKnown m.target_connectors published
    → Inv (sound m (suc workers) reading (suc workers) published [] [] waits_for_sources)
    → Leads
        (sound m (suc workers) reading (suc workers) published [] [] waits_for_sources)
        (λ m. sound m (suc workers) total (suc workers) [] [] [] waits_for_sources)
hand_over_all workers reading total m [] e known inv = (
  m,
  subst
      (λ n.
        Reach (sound m (suc workers) reading (suc workers) [] [] [] waits_for_sources)
          (sound m (suc workers) n (suc workers) [] [] [] waits_for_sources))
      (omega (arith, e)) start,
  refl,
)
hand_over_all workers reading total m (targets ∷ rest) e known inv =
    let taken = later start (hand_over (here rest) refl) in
    let done =
      deliver_all (suc workers) (reading + 1) m workers rest (targets ∷ []) (known.0, tt)
        (Reach-Inv inv taken) in
    let first = after taken refl done in
    chain (λ m. refl) first
      (hand_over_all workers (reading + 1) total first.0 rest (omega (arith, e))
        (subst (λ names. AllKnown names rest) (sym first.2) known.1) (Reach-Inv inv first.1))
