-- ===== src/Broker/System/Waiting.antt =====
-- The wait group of the targets of a running broker, and how they return once they are told to stop.
use log_shipper.Base.{ℕ, ◌+◌, ◌≡◌, refl, arith, String, true, false, List, [], ◌∷◌, str_eq, eq_iff}
use log_shipper.Base.Lists.{length}
use log_shipper.Broker.Manager.{
  new_manager, start as start_manager, register_sources, register_targets, Manager, contains,
  finds_target, add_message,
}
use log_shipper.Broker.System.{
  Phase, waits_for_targets, System, Step, publish, send_nowhere, hand_over_garbled,
  complete_and_return, fall_back, take_over, lose, lose_and_return, target_returns, target_fails,
  finish, finished, listed, hand_over, source_returns, send, worker_waits, stop_workers,
  worker_returns, workers_stopped, stop_targets, launched, Reach, start, later,
}
use log_shipper.Broker.System.Counting.{complete_message-Completed, done_lem}
use log_shipper.Broker.System.Shutdown.{append-Reach}
use log_shipper.Broker.System.Draining.{Known}

-- The wait group of the targets counts those that have not returned.
abbrev pub Waited : System → Type 0
Waited s = s.manager.target_wait + length s.ended ≡ length s.manager.target_connectors

Step-Waited : {s t : System} → Waited s → Step s t → Waited t
unfolding add_message
Step-Waited w (publish targets e) = w
Step-Waited w (Step.complete p e) = ground (arith, complete_message-Completed _ e)
Step-Waited w (complete_and_return p e d) =
    ground (arith, complete_message-Completed _ e, done_lem _ d)
Step-Waited w (lose_and_return p d) = ground (arith, done_lem _ d)
Step-Waited w (target_returns t c f i d) = ground (arith, done_lem _ d)
Step-Waited w (target_fails t f i d) = ground (arith, done_lem _ d)
Step-Waited w (hand_over p e) = w
Step-Waited w (source_returns e d) = w
Step-Waited w (send p f i) = w
Step-Waited w (send_nowhere p f) = w
Step-Waited w (worker_waits p) = w
Step-Waited w (hand_over_garbled p e) = w
Step-Waited w (fall_back u p f) = w
Step-Waited w (take_over p i) = w
Step-Waited w (lose p) = w
Step-Waited w (stop_workers e z) = w
Step-Waited w (worker_returns e x d) = w
Step-Waited w (workers_stopped e z) = w
Step-Waited w (stop_targets e z) = w
Step-Waited w (finish e z) = w

pub Reach-Waited : {s t : System} → Waited s → Reach s t → Waited t
Reach-Waited w start = w
Reach-Waited w (later r step) = Step-Waited (Reach-Waited w r) step

sources_same :
    (sources : List String) (m : Manager)
    → ((register_sources sources m).target_wait ≡ m.target_wait)
      × ((register_sources sources m).target_connectors ≡ m.target_connectors)
unfolding register_sources
sources_same [] m = (refl, refl)
sources_same (name ∷ sources) m =
    sources_same sources
      (record m { source_connectors = name ∷ m.source_connectors; source_wait = m.source_wait + 1 })

targets_same :
    (sources targets : List String) (m : Manager)
    → m.target_wait ≡ length m.target_connectors
    → (start_manager sources targets m).target_wait
      ≡ length (start_manager sources targets m).target_connectors
unfolding start_manager register_targets
targets_same sources [] m e = ground (arith, sources_same sources m)
targets_same sources (name ∷ targets) m e =
    targets_same sources targets
      (record m { target_connectors = name ∷ m.target_connectors; target_wait = m.target_wait + 1 })
      (omega (arith, e))

pub launched-Waited :
    (sources targets : List String) (workers : ℕ) → Waited (launched sources targets workers)
unfolding new_manager
launched-Waited sources targets workers =
    omega (arith, targets_same sources targets new_manager refl)

-- A name is none of the names of a list.
abbrev Fresh : String → List String → Type 0
Fresh t [] = Unit
Fresh t (u ∷ us) = (str_eq u t ≡ false) × Fresh t us

abbrev pub AllDistinct : List String → Type 0
AllDistinct [] = Unit
AllDistinct (t ∷ ts) = Fresh t ts × AllDistinct ts

-- The targets that have still to return.
abbrev pub Left : List String → List String → Type 0
Left ended [] = Unit
Left ended (t ∷ ts) = (listed t ended ≡ false) × Left ended ts

Left-Fresh :
    (t : String) (ended ts : List String) → Fresh t ts → Left ended ts → Left (t ∷ ended) ts
Left-Fresh t ended [] f l = tt
Left-Fresh t ended (u ∷ us) f l = (rw (f.0) (l.0), Left-Fresh t ended us f.1 l.1)

pub Left-[] : (ts : List String) → Left [] ts
Left-[] [] = tt
Left-[] (t ∷ ts) = (refl, Left-[] ts)

Known-cons : (name : String) (names ts : List String) → Known names ts → Known (name ∷ names) ts
unfolding contains
Known-cons name names [] k = tt
Known-cons name names (t ∷ ts) k = (ground (arith, k.0), Known-cons name names ts k.1)

pub Known-self : (ts : List String) → Known ts ts
unfolding contains
Known-self [] = tt
Known-self (t ∷ ts) = (ground (arith, eq_iff t t), Known-cons t ts ts (Known-self ts))

-- A broker whose targets were told to stop.
abbrev pub stopping : Manager → ℕ → List String → Phase → System
stopping m target_wait ended phase = record {
  manager = record m { target_stop_closed = true; target_wait = target_wait };
  workers = 0;
  reading = 0;
  waiting = 0;
  published = [];
  carried = [];
  active = [];
  ended = ended;
  lost = 0;
  phase = phase;
}

pub return_targets :
    (m : Manager) (left ended : List String)
    → Known m.target_connectors left
    → AllDistinct left
    → Left ended left
    → (t : System) × Reach (stopping m (length left) ended waits_for_targets) t
      × (t.phase ≡ finished)
      × (t.manager.target_stop_closed ≡ true)
unfolding finds_target
return_targets m [] ended known distinct rest = (_, later start (finish refl refl), refl, refl)
return_targets m (t ∷ left) ended known distinct rest =
    let first = later start (target_returns t refl known.0 (refl, rest.0) refl) in
    let others =
      return_targets m left (t ∷ ended) known.1 distinct.1
        (Left-Fresh t ended left distinct.0 rest.1) in
    (others.0, append-Reach first others.1, others.2, others.3)
