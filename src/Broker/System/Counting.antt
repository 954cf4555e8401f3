-- ===== src/Broker/System/Counting.antt =====
-- The counters of a running broker against what its goroutines hold.
use mathlib.Core.Option.{some-injective}
use log_shipper.Base.{
  ℕ, zero, suc, ◌+◌, ◌≤◌, ◌≡◌, refl, ap, sym, ◌∙◌, arith, String, true, some, List, [], ◌∷◌,
}
use log_shipper.Base.Lists.{length}
use log_shipper.Broker.Manager.{
  Manager, new_manager, start as start_manager, register_sources, register_targets, add_message,
  complete_message, complete, done,
}
use log_shipper.Broker.System.{
  Phase, waits_for_sources, waits_for_workers, waits_for_messages, waits_for_targets, finished,
  System, Pick, here, there, Step, publish, hand_over, source_returns, send, send_nowhere,
  worker_waits, hand_over_garbled, complete_and_return, fall_back, take_over, lose, lose_and_return,
  stop_workers, worker_returns, workers_stopped, stop_targets, target_returns, target_fails, finish,
  launched, Reach, start, later,
}

abbrev pub copies_of : List (List String) → ℕ
copies_of [] = 0
copies_of (targets ∷ rest) = length targets + copies_of rest

abbrev pub rank : Phase → ℕ
rank waits_for_sources = 0
rank waits_for_workers = 1
rank waits_for_messages = 2
rank waits_for_targets = 3
rank finished = 4

pub record Inv (s : System) : Type 0 where
  pub messages :
      s.manager.in_flight ≡ copies_of s.published + copies_of s.carried + length s.active + s.lost
  pub sources : s.manager.source_wait ≡ s.reading + length s.published
  pub worker_group : s.workers ≡ s.waiting + length s.carried
  pub sources_left : 1 ≤ rank s.phase → s.manager.source_wait ≡ 0
  pub workers_left : 2 ≤ rank s.phase → s.workers ≡ 0
  pub settled : 3 ≤ rank s.phase → s.manager.in_flight ≡ 0
  pub closed : s.manager.target_stop_closed ≡ true → 3 ≤ rank s.phase

pub Pick-length :
    {A : Type 0} {x : A} {items rest : List A}
    → Pick x items rest
    → length items ≡ suc (length rest)
Pick-length (here rest) = refl
Pick-length (there y p) = omega (arith, Pick-length p)

pub Pick-copies_of :
    {x : List String} {items rest : List (List String)}
    → Pick x items rest
    → copies_of items ≡ length x + copies_of rest
Pick-copies_of (here rest) = refl
Pick-copies_of (there y p) = omega (arith, Pick-copies_of p)

-- What `Done` and `CompleteMessage` change.
pub done_lem : (n : ℕ) {m : ℕ} → done n ≡ some m → n ≡ suc m
done_lem zero e = absurd (ground (arith, e))
done_lem (suc n) e = ground (arith, e)

pub record Completed (m m' : Manager) : Type 0 where
  pub one_less : m.in_flight ≡ suc m'.in_flight
  pub same_targets : m'.target_connectors ≡ m.target_connectors
  pub same_target_wait : m'.target_wait ≡ m.target_wait
  pub same_sources : m'.source_wait ≡ m.source_wait
  pub same_stop : m'.target_stop_closed ≡ m.target_stop_closed

pub complete_message-Completed :
    (m : Manager) {m' : Manager} → complete_message m ≡ some m' → Completed m m'
unfolding complete_message
complete_message-Completed m {m'} e = go m.in_flight refl e
  where
    go : (n : ℕ) → m.in_flight ≡ n → complete m (done n) ≡ some m' → Completed m m'
    go zero z e = absurd (ground (arith, e))
    go (suc n) z e =
        let same = some-injective _ _ e in
        record {
          one_less = z ∙ ap (λ x. suc x.in_flight) same;
          same_targets = sym (ap (λ x. x.target_connectors) same);
          same_target_wait = sym (ap (λ x. x.target_wait) same);
          same_sources = sym (ap (λ x. x.source_wait) same);
          same_stop = sym (ap (λ x. x.target_stop_closed) same);
        }

pub Step-Inv : {s t : System} → Inv s → Step s t → Inv t
unfolding add_message
Step-Inv inv (publish targets e) = ground (arith, e)
Step-Inv inv (hand_over p e) = ground (arith, e, Pick-length p, Pick-copies_of p)
Step-Inv inv (source_returns e d) = ground (arith, e, done_lem _ d)
Step-Inv inv (send p f i) = ground (arith, Pick-length p, Pick-copies_of p)
Step-Inv inv (send_nowhere p f) = ground (arith, Pick-length p, Pick-copies_of p)
Step-Inv inv (worker_waits p) = ground (arith, Pick-length p, Pick-copies_of p)
Step-Inv inv (hand_over_garbled p e) = ground (arith, e, Pick-length p, Pick-copies_of p)
Step-Inv inv (Step.complete p e) = ground (arith, Pick-length p, complete_message-Completed _ e)
Step-Inv inv (complete_and_return p e d) =
    ground (arith, Pick-length p, complete_message-Completed _ e)
Step-Inv inv (fall_back u p f) = ground (arith, Pick-length p)
Step-Inv inv (take_over p i) = ground (arith, Pick-length p)
Step-Inv inv (lose p) = ground (arith, Pick-length p)
Step-Inv inv (lose_and_return p d) = ground (arith, Pick-length p)
Step-Inv inv (stop_workers e z) = ground (arith, e, z)
Step-Inv inv (worker_returns e w d) = ground (arith, e, w, done_lem _ d)
Step-Inv inv (workers_stopped e z) = ground (arith, e, z)
Step-Inv inv (stop_targets e z) = ground (arith, e, z)
Step-Inv inv (target_returns t c f i d) = ground arith
Step-Inv inv (target_fails t f i d) = ground arith
Step-Inv inv (finish e z) = ground (arith, e, z)

sources_counts :
    (sources : List String) (m : Manager)
    → ((register_sources sources m).in_flight ≡ m.in_flight)
      × ((register_sources sources m).target_stop_closed ≡ m.target_stop_closed)
      × ((register_sources sources m).source_wait ≡ m.source_wait + length sources)
unfolding register_sources
sources_counts [] m = (refl, refl, omega arith)
sources_counts (name ∷ sources) m = ground (
  arith,
  sources_counts sources (record m {
    source_connectors = name ∷ m.source_connectors;
    source_wait = m.source_wait + 1;
  }),
)

start_counts :
    (sources targets : List String) (m : Manager)
    → ((start_manager sources targets m).in_flight ≡ m.in_flight)
      × ((start_manager sources targets m).target_stop_closed ≡ m.target_stop_closed)
      × ((start_manager sources targets m).source_wait ≡ m.source_wait + length sources)
unfolding start_manager register_targets
start_counts sources [] m = sources_counts sources m
start_counts sources (name ∷ targets) m =
    start_counts sources targets
      (record m { target_connectors = name ∷ m.target_connectors; target_wait = m.target_wait + 1 })

pub launched-Inv :
    (sources targets : List String) (workers : ℕ) → Inv (launched sources targets workers)
unfolding new_manager
launched-Inv sources targets workers = ground (arith, start_counts sources targets new_manager)

-- The invariant of a running broker.
pub Reach-Inv : {s t : System} → Inv s → Reach s t → Inv t
Reach-Inv inv start = inv
Reach-Inv inv (later r step) = Step-Inv (Reach-Inv inv r) step
