-- ===== src/Broker/System.antt =====
-- broker/broker.go with the connectors and workers of broker/: the goroutines of a running broker,
-- interleaved in any order.
pub mod Counting
pub mod Shutdown
pub mod Deadlock
pub mod Draining
pub mod Waiting
pub mod Refinement
pub mod Sources
pub mod Ending
mod Tests
use log_shipper.Base.{
  ℕ, zero, suc, ◌+◌, ◌≡◌, String, Bool, true, false, Option, some, List, [], ◌∷◌, ◌||◌, str_eq,
}
use log_shipper.Base.Lists.{length}
use log_shipper.Broker.Manager.{
  Manager, new_manager, start as start_manager, add_message, complete_message, done, finds_target,
}

-- What the goroutine of a target does with the message that it took from its channel: it works on
-- it, or it is blocked in a fallback, sending it to another target.
pub data Activity : Type 0 where
  working : Activity
  sending : String → Activity

-- Where the goroutine of `Broker.Start` stands: in `WaitForSources`, in the wait of
-- `WorkerManager.Stop`, in the wait of `StopTargets` for the messages in flight, in the wait for the
-- targets, or behind it.
pub data Phase : Type 0 where
  waits_for_sources waits_for_workers waits_for_messages waits_for_targets finished : Phase

-- `reading` sources and `waiting` workers stand at the `select` of their loops. The others hold a
-- message, which is shown by the targets that it is still to go to: sources, `published`, one they
-- have counted and not yet handed over, and workers, `carried`. `active` are the targets with a
-- message, `ended` those whose goroutine has returned. `lost` counts messages for a target that
-- nothing holds any more and that were not completed.
pub record System : Type 0 where
  pub manager : Manager
  pub workers : ℕ
  pub reading : ℕ
  pub waiting : ℕ
  pub published : List (List String)
  pub carried : List (List String)
  pub active : List (String × Activity)
  pub ended : List String
  pub lost : ℕ
  pub phase : Phase

-- `x` is one of the items of a list, and the others are left.
pub data Pick {A : Type 0} (x : A) : List A → List A → Type 0 where
  here : (rest : List A) → Pick x (x ∷ rest) rest
  there : (y : A) {items rest : List A} → Pick x items rest → Pick x (y ∷ items) (y ∷ rest)

abbrev pub busy : String → List (String × Activity) → Bool
busy t [] = false
busy t ((u, activity) ∷ active) = str_eq t u || busy t active

abbrev pub listed : String → List String → Bool
listed t [] = false
listed t (u ∷ us) = str_eq t u || listed t us

-- A target is at the `select` of its loop.
abbrev pub Idle : String → System → Type 0
Idle t s = (busy t s.active ≡ false) × (listed t s.ended ≡ false)

module _ (s : System) where
  pub data Step : System → Type 0 where
    -- `AddMessage(len(l.Targets))` by a source.
    publish :
        (targets : List String) {n : ℕ}
        → s.reading ≡ suc n
        → Step (record s {
          manager = add_message (length targets) s.manager;
          reading = n;
          published = targets ∷ s.published;
        })
    -- `s.Outbound <- rawData` meets `<-receiver`.
    hand_over :
        {targets : List String} {rest : List (List String)} {n : ℕ}
        → Pick targets s.published rest
        → s.waiting ≡ suc n
        → Step (record s {
          reading = s.reading + 1;
          waiting = n;
          published = rest;
          carried = targets ∷ s.carried;
        })
    -- The same for a message that the worker cannot parse: it drops it and waits again.
    hand_over_garbled :
        {targets : List String} {rest : List (List String)} {n : ℕ}
        → Pick targets s.published rest
        → s.waiting ≡ suc n
        → Step
            (record s { reading = s.reading + 1; published = rest; lost = s.lost + length targets })
    -- The loop of a source returns, on the end of its stream, an error or a stop.
    source_returns :
        {n w : ℕ}
        → s.reading ≡ suc n
        → done s.manager.source_wait ≡ some w
        → Step (record s { manager = record (s.manager) { source_wait = w }; reading = n })
    -- `SendToTarget` by a worker.
    send :
        {t : String} {targets : List String} {rest : List (List String)}
        → Pick (t ∷ targets) s.carried rest
        → finds_target t s.manager ≡ true
        → Idle t s
        → Step (record s { carried = targets ∷ rest; active = (t, working) ∷ s.active })
    send_nowhere :
        {t : String} {targets : List String} {rest : List (List String)}
        → Pick (t ∷ targets) s.carried rest
        → finds_target t s.manager ≡ false
        → Step (record s { carried = targets ∷ rest; lost = s.lost + 1 })
    worker_waits :
        {rest : List (List String)}
        → Pick [] s.carried rest
        → Step (record s { waiting = s.waiting + 1; carried = rest })
    -- A target completes its message: delivered, or discarded by a rate limit.
    complete :
        {t : String} {rest : List (String × Activity)} {m : Manager}
        → Pick (t, working) s.active rest
        → complete_message s.manager ≡ some m
        → Step (record s { manager = m; active = rest })
    -- The target's answer is missing: it completes the message and returns.
    complete_and_return :
        {t : String} {rest : List (String × Activity)} {m : Manager} {w : ℕ}
        → Pick (t, working) s.active rest
        → complete_message s.manager ≡ some m
        → done m.target_wait ≡ some w
        → Step (record s {
          manager = record m { target_wait = w };
          active = rest;
          ended = t ∷ s.ended;
        })
    -- A rate limit sends the message to another target, and waits until that one takes it.
    fall_back :
        {t : String} {rest : List (String × Activity)} (u : String)
        → Pick (t, working) s.active rest
        → finds_target u s.manager ≡ true
        → Step (record s { active = (t, sending u) ∷ rest })
    take_over :
        {t u : String} {rest : List (String × Activity)}
        → Pick (t, sending u) s.active rest
        → Idle u s
        → Step (record s { active = (u, working) ∷ rest })
    -- A fallback that cannot be marshalled, or to a target that is not there: the loop goes on.
    lose :
        {t : String} {rest : List (String × Activity)}
        → Pick (t, working) s.active rest
        → Step (record s { active = rest; lost = s.lost + 1 })
    -- An error on which the loop returns without completing the message.
    lose_and_return :
        {t : String} {rest : List (String × Activity)} {w : ℕ}
        → Pick (t, working) s.active rest
        → done s.manager.target_wait ≡ some w
        → Step (record s {
          manager = record (s.manager) { target_wait = w };
          active = rest;
          ended = t ∷ s.ended;
          lost = s.lost + 1;
        })
    -- `Broker.Start`, wait by wait.
    stop_workers :
        s.phase ≡ waits_for_sources
        → s.manager.source_wait ≡ 0
        → Step (record s { phase = waits_for_workers })
    worker_returns :
        {n w : ℕ}
        → s.phase ≡ waits_for_workers
        → s.waiting ≡ suc n
        → done s.workers ≡ some w
        → Step (record s { workers = w; waiting = n })
    workers_stopped :
        s.phase ≡ waits_for_workers → s.workers ≡ 0 → Step (record s { phase = waits_for_messages })
    stop_targets :
        s.phase ≡ waits_for_messages
        → s.manager.in_flight ≡ 0
        → Step (record s {
          manager = record (s.manager) { target_stop_closed = true };
          phase = waits_for_targets;
        })
    target_returns :
        (t : String) {w : ℕ}
        → s.manager.target_stop_closed ≡ true
        → finds_target t s.manager ≡ true
        → Idle t s
        → done s.manager.target_wait ≡ some w
        → Step (record s { manager = record (s.manager) { target_wait = w }; ended = t ∷ s.ended })
    -- A target that cannot be dialled: its goroutine returns before it takes a message.
    target_fails :
        (t : String) {w : ℕ}
        → finds_target t s.manager ≡ true
        → Idle t s
        → done s.manager.target_wait ≡ some w
        → Step (record s { manager = record (s.manager) { target_wait = w }; ended = t ∷ s.ended })
    finish :
        s.phase ≡ waits_for_targets
        → s.manager.target_wait ≡ 0
        → Step (record s { phase = finished })

-- A broker whose connectors and workers were started.
abbrev pub launched : List String → List String → ℕ → System
launched sources targets workers = record {
  manager = start_manager sources targets new_manager;
  workers = workers;
  reading = length sources;
  waiting = workers;
  published = [];
  carried = [];
  active = [];
  ended = [];
  lost = 0;
  phase = waits_for_sources;
}

pub data Reach (s : System) : System → Type 0 where
  start : Reach s s
  later : {t u : System} → Reach s t → Step t u → Reach s u
