-- ===== src/Broker/System/Shutdown.antt =====
-- What the wait groups of a running broker count, and what its shutdown waits for.
use log_shipper.Base.{
  ℕ, zero, suc, ◌+◌, ◌≤◌, ◌≡◌, refl, arith, String, true, false, some, List, [], ◌∷◌, Bool-cases,
  inl, inr,
}
use log_shipper.Base.Lists.{length}
use log_shipper.Broker.Manager.{Manager, complete_message, complete, done}
use log_shipper.Broker.System.{
  System, Step, send_nowhere, hand_over_garbled, lose, lose_and_return, launched, Reach, start,
  later,
}
use log_shipper.Broker.System.Counting.{copies_of, Reach-Inv, launched-Inv}

nil_of_length : {A : Type 0} (xs : List A) → length xs ≡ 0 → xs ≡ []
nil_of_length [] e = refl
nil_of_length (x ∷ xs) e = absurd (omega arith)

pub complete_some :
    (m : Manager) → 1 ≤ m.in_flight → (m' : Manager) × (complete_message m ≡ some m')
unfolding complete_message
complete_some m h = go m.in_flight h
  where
    go : (n : ℕ) → 1 ≤ n → (m' : Manager) × (complete m (done n) ≡ some m')
    go zero h = absurd (omega arith)
    go (suc n) h = (_, refl)

lost_stays : {s t : System} → Step s t → s.lost ≤ t.lost
lost_stays (send_nowhere p f) = omega arith
lost_stays (hand_over_garbled p e) = omega arith
lost_stays (lose p) = omega arith
lost_stays (lose_and_return p d) = omega arith
lost_stays _ = omega arith

lost_remains : {s t : System} → Reach s t → s.lost ≤ t.lost
lost_remains start = omega arith
lost_remains (later r step) = omega (arith, lost_remains r, lost_stays step)

pub append-Reach : {s t u : System} → Reach s t → Reach t u → Reach s u
append-Reach r start = r
append-Reach r (later q step) = later (append-Reach r q) step

module _ (sources targets : List String) (workers : ℕ) where
  -- In every state that a broker reaches, the wait group of the messages in flight counts the copies
  -- that sources, workers and targets hold, and those that were lost; the wait group of the sources
  -- counts those that read and those that hold a message, and so does that of the workers.
  pub wait_groups_count :
      {s : System}
      → Reach (launched sources targets workers) s
      → (s.manager.in_flight
          ≡ copies_of s.published + copies_of s.carried + length s.active + s.lost)
        × (s.manager.source_wait ≡ s.reading + length s.published)
        × (s.workers ≡ s.waiting + length s.carried)
  wait_groups_count r =
      let inv = Reach-Inv (launched-Inv sources targets workers) r in
      (inv.messages, inv.sources, inv.worker_group)

  -- When the targets are told to stop, no message is left: sources, workers and targets hold none,
  -- and none was lost.
  pub stop_finds_nothing :
      {s : System}
      → Reach (launched sources targets workers) s
      → s.manager.target_stop_closed ≡ true
      → (s.published ≡ []) × (s.carried ≡ []) × (s.active ≡ []) × (s.lost ≡ 0)
  stop_finds_nothing {s} r e =
      let inv = Reach-Inv (launched-Inv sources targets workers) r in
      let late = inv.closed e in
      let no_source = inv.sources_left (omega arith) in
      let no_worker = inv.workers_left (omega arith) in
      let no_message = inv.settled late in
      (
        nil_of_length s.published (omega (arith, inv.sources)),
        nil_of_length s.carried (omega (arith, inv.worker_group)),
        nil_of_length s.active (omega (arith, inv.messages)),
        omega (arith, inv.messages),
      )

  -- Once a copy of a message is lost, the shutdown never gets past its wait for the messages in
  -- flight: in all that follows the wait group stays above zero and no target is told to stop.
  pub lost_blocks :
      {s t : System}
      → Reach (launched sources targets workers) s
      → 1 ≤ s.lost
      → Reach s t
      → (1 ≤ t.manager.in_flight) × (t.manager.target_stop_closed ≡ false)
  lost_blocks {s} {t} r lost q =
      let whole = append-Reach r q in
      let inv = Reach-Inv (launched-Inv sources targets workers) whole in
      let still = lost_remains q in
      (
        omega (arith, inv.messages),
        elim (Bool-cases t.manager.target_stop_closed) [
          | inl closed ↦ absurd (omega (arith, (stop_finds_nothing whole closed).3))
          | inr opened ↦ opened
        ],
      )
