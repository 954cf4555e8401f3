-- ===== src/Broker/System/Ending.antt =====
-- How a running broker ends: its wait groups empty one after the other.
use log_shipper.Base.{
  ℕ, zero, suc, ◌+◌, ◌≤◌, ◌≡◌, refl, ap, sym, ◌∙◌, arith, String, true, List, [],
}
use mathlib.Core.Path.{subst}
use log_shipper.Base.Lists.{length}
use log_shipper.Broker.Manager.{Manager, done}
use log_shipper.Broker.System.{
  waits_for_sources, waits_for_workers, waits_for_targets, Activity, System, finished,
  source_returns, stop_workers, worker_returns, workers_stopped, stop_targets, launched, Reach,
  start, later,
}
use log_shipper.Broker.System.Counting.{Inv, Reach-Inv, launched-Inv}
use log_shipper.Broker.System.Shutdown.{append-Reach, stop_finds_nothing}
use log_shipper.Broker.System.Draining.{
  sound, Leads, chain, after, all_work, AllKnown, complete_all, deliver_all, hand_over_all,
}
use log_shipper.Broker.System.Waiting.{
  Reach-Waited, launched-Waited, AllDistinct, Left-[], Known-self, stopping, return_targets,
}

return_sources :
    (workers reading : ℕ) (m : Manager)
    → Inv (sound m workers reading workers [] [] [] waits_for_sources)
    → Leads
        (sound m workers reading workers [] [] [] waits_for_sources)
        (λ m. sound m workers 0 workers [] [] [] waits_for_sources)
return_sources workers zero m inv = (m, start, refl)
return_sources workers (suc reading) m inv =
    let one : m.source_wait ≡ suc reading = omega (arith, inv.sources) in
    let first = later start (source_returns {w = reading} refl (ap done one)) in
    after first refl
      (return_sources workers reading (record m { source_wait = reading }) (Reach-Inv inv first))

return_workers :
    (workers : ℕ) (m : Manager)
    → Reach
        (sound m workers 0 workers [] [] [] waits_for_workers)
        (sound m 0 0 0 [] [] [] waits_for_workers)
return_workers zero m = start
return_workers (suc workers) m =
    append-Reach (later start (worker_returns refl refl refl)) (return_workers workers m)

-- The shutdown, wait by wait.
shut_down :
    (workers : ℕ) (m : Manager)
    → Inv (sound m workers 0 workers [] [] [] waits_for_sources)
    → Reach
        (sound m workers 0 workers [] [] [] waits_for_sources)
        (sound (record m { target_stop_closed = true }) 0 0 0 [] [] [] waits_for_targets)
shut_down workers m inv =
    let no_source : m.source_wait ≡ 0 = omega (arith, inv.sources) in
    let no_message : m.in_flight ≡ 0 = omega (arith, inv.messages) in
    later
      (later (append-Reach (later start (stop_workers refl no_source)) (return_workers workers m))
        (workers_stopped refl refl))
      (stop_targets refl no_message)

to_the_stop :
    (workers reading waiting : ℕ) (m : Manager) (published carried : List (List String))
    (active : List (String × Activity))
    → 1 ≤ workers
    → all_work active ≡ true
    → AllKnown m.target_connectors published
    → AllKnown m.target_connectors carried
    → Inv (sound m workers reading waiting published carried active waits_for_sources)
    → Leads
        (sound m workers reading waiting published carried active waits_for_sources)
        (λ m. sound (record m { target_stop_closed = true }) 0 0 0 [] [] [] waits_for_targets)
to_the_stop zero reading waiting m published carried active enough h kp kc inv =
    absurd (omega arith)
to_the_stop (suc workers) reading waiting m published carried active enough h kp kc inv =
    let n = suc workers in
    let completed = complete_all n reading m waiting published carried active h inv in
    let inv1 = Reach-Inv inv completed.1 in
    let delivered =
      chain (λ m. refl) completed
        (deliver_all n reading completed.0 waiting published carried
          (subst (λ names. AllKnown names carried) (sym completed.2) kc) inv1) in
    let handed =
      chain (λ m. refl) delivered
        (hand_over_all workers reading (reading + length published) delivered.0 published refl
          (subst (λ names. AllKnown names published) (sym delivered.2) kp)
          (Reach-Inv inv delivered.1)) in
    let returned =
      chain (λ m. refl) handed
        (return_sources n (reading + length published) handed.0 (Reach-Inv inv handed.1)) in
    (
      returned.0,
      append-Reach returned.1 (shut_down n returned.0 (Reach-Inv inv returned.1)),
      returned.2,
    )

-- A state with the fields that `sound` fixes.
shape :
    (s : System)
    → s.ended ≡ []
    → s.lost ≡ 0
    → s.phase ≡ waits_for_sources
    → s
      ≡ sound s.manager s.workers s.reading s.waiting s.published s.carried s.active
          waits_for_sources
shape s no_end no_loss phase =
    ap (λ x. record s { ended = x }) no_end
    ∙ ap (λ x. record s { ended = []; lost = x }) no_loss
    ∙ ap (λ x. record s { ended = []; lost = 0; phase = x }) phase

module _ (sources targets : List String) (workers : ℕ) where
  -- A running broker that still has a worker, in which no target has returned, none waits in a
  -- fallback and no message is lost or for a target that is not there, can still deliver all that it
  -- holds and end: there are steps to the end of `Broker.Start`, at which sources, workers and
  -- targets hold no message, and none was lost on the way.
  pub drains :
      {s : System}
      → Reach (launched sources targets workers) s
      → AllDistinct s.manager.target_connectors
      → 1 ≤ s.workers
      → s.phase ≡ waits_for_sources
      → s.ended ≡ []
      → s.lost ≡ 0
      → all_work s.active ≡ true
      → AllKnown s.manager.target_connectors s.published
      → AllKnown s.manager.target_connectors s.carried
      → (t : System) × Reach s t
        × (t.phase ≡ finished)
        × (t.published ≡ [])
        × (t.carried ≡ [])
        × (t.active ≡ [])
        × (t.lost ≡ 0)
  drains {s} r distinct enough phase no_end no_loss h kp kc =
      let same = shape s no_end no_loss phase in
      let inv = Reach-Inv (launched-Inv sources targets workers) r in
      let l =
        to_the_stop s.workers s.reading s.waiting s.manager s.published s.carried s.active enough h
          kp kc (subst Inv same inv) in
      let names = l.0.target_connectors in
      let stopped =
        subst (λ x. Reach x (stopping l.0 l.0.target_wait [] waits_for_targets)) (sym same) l.1 in
      let waited =
        Reach-Waited (launched-Waited sources targets workers) (append-Reach r stopped) in
      let count : l.0.target_wait ≡ length names = omega (arith, waited) in
      let ready = subst (λ k. Reach s (stopping l.0 k [] waits_for_targets)) count stopped in
      let returned =
        return_targets l.0 names [] (Known-self names) (subst AllDistinct (sym l.2) distinct)
          (Left-[] names) in
      let whole = append-Reach ready returned.1 in
      let nothing = stop_finds_nothing sources targets workers (append-Reach r whole) returned.3 in
      (returned.0, whole, returned.2, nothing.0, nothing.1, nothing.2, nothing.3)
