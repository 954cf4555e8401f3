-- ===== src/Nomad/Events/Once.antt =====
-- No event is reported twice.
use Prim.Native.String.{◌++◌ as ◌+++◌}
use mathlib.Core.Path.{subst}
use mathlib.Core.Option.{some-injective}
use log_shipper.Base.{
  ◌≡◌, refl, ap, arith, ℕ, String, Bool, true, false, not, Option, none, some, List, [], ◌∷◌,
  str_eq, eq_iff, ◌||◌, if◌then◌else◌, ◌>>=◌,
}
use log_shipper.Base.Dict.{Dict, lookup}
use log_shipper.Message.{SourceMessage}
use log_shipper.Nomad.{TaskEvent, Job, Allocation}
use log_shipper.Nomad.Config.{TaskConfig, AllocationConfig, new_from_allocation}
use log_shipper.Nomad.Events.{
  Ledger, event_key, Sends, report_new, report_hashed, report, watch_found, extend, and_then,
  report_all, watch_task, watch_tasks, watch_allocation_events,
}

-- A key that was put is there, and no other key goes away.
abbrev pub Remembers : {K : Type 0} → Ledger K → Type 0
Remembers {K} ledger =
    (key wanted : String) (k : K)
    → ledger.has_key wanted (ledger.put key k) ≡ (str_eq key wanted || ledger.has_key wanted k)

module _ {K : Type 0} (ledger : Ledger K) (cluster_name : String)
    (remembers : Remembers ledger) where
  -- From `k` to `k'` no key goes away.
  abbrev Grows : K → K → Type 0
  Grows k k' = (key : String) → ledger.has_key key k ≡ true → ledger.has_key key k' ≡ true

  -- A step that went through: the keys grew, and from every later state it sends nothing more.
  record Done (step : K → Sends K) (k k' : K) : Type 0 where
    grows : Grows k k'
    silent : (later : K) → Grows k' later → step later ≡ some ([], later)

  put-Grows : (key : String) (k : K) → Grows k (ledger.put key k)
  put-Grows key k wanted h = rw (remembers key wanted k) (ground (arith, h))

  put_there : (key : String) (k : K) → ledger.has_key key (ledger.put key k) ≡ true
  put_there key k = rw (remembers key key k) (ground (arith, eq_iff key key))

  and_then-Done :
      (first second : K → Sends K) (k k' : K) (sent : List SourceMessage)
      → ((m : K) (out : List SourceMessage) → first k ≡ some (out, m) → Done first k m)
      → ((m n : K) (out : List SourceMessage) → second m ≡ some (out, n) → Done second m n)
      → and_then ledger cluster_name (first k) second ≡ some (sent, k')
      → Done (λ x. and_then ledger cluster_name (first x) second) k k'
  unfolding and_then extend
  and_then-Done first second k k' sent one two went = outer (first k) refl went
    where
      both :
          (m n : K)
          → Done first k m
          → Done second m n
          → Done (λ x. and_then ledger cluster_name (first x) second) k n
      both m n d e = record {
        grows = λ key h. e.grows key (d.grows key h);
        silent = λ later g.
            rw (d.silent later (λ key h. g key (e.grows key h))) (rw (e.silent later g) refl);
      }

      inner :
          (m : K) (out : List SourceMessage) (o : Sends K)
          → first k ≡ some (out, m)
          → second m ≡ o
          → extend ledger cluster_name out o ≡ some (sent, k')
          → Done (λ x. and_then ledger cluster_name (first x) second) k k'
      inner m out none e f w = absurd (ground (arith, w))
      inner m out (some (more, n)) e f w =
          let same : n ≡ k' = ap (λ (x : List SourceMessage × K). x.1) (some-injective _ _ w) in
          subst (λ x. Done (λ x. and_then ledger cluster_name (first x) second) k x) same
            (both m n (one m out e) (two m n more f))

      outer :
          (o : Sends K)
          → first k ≡ o
          → and_then ledger cluster_name o second ≡ some (sent, k')
          → Done (λ x. and_then ledger cluster_name (first x) second) k k'
      outer none e w = absurd (ground (arith, w))
      outer (some (out, m)) e w = inner m out (second m) e refl w

  abbrev quiet : K → Sends K
  quiet k = some ([], k)

  left :
      (k k' : K) (out sent : List SourceMessage)
      → ◌≡◌ {A = Sends K} (some (out, k)) (some (sent, k'))
      → k ≡ k'
  left k k' out sent w = ap (λ (x : List SourceMessage × K). x.1) (some-injective _ _ w)

  quiet-Done : (k k' : K) (sent : List SourceMessage) → quiet k ≡ some (sent, k') → Done quiet k k'
  quiet-Done k k' sent w =
      subst (λ x. Done quiet k x) (left k k' [] sent w)
        (record { grows = λ key h. h; silent = λ later g. refl })

  module _ (alloc : Allocation) (job_id : Option String) (task : String) where
    report_new-Grows :
        (e : TaskEvent) (key : String) (k k' : K) (there : Bool) (sent : List SourceMessage)
        (id : Option String)
        → ledger.has_key key k ≡ there
        → report_new ledger cluster_name alloc id task e key k there ≡ some (sent, k')
        → Grows k k' × (ledger.has_key key k' ≡ true)
    unfolding report_new
    report_new-Grows e key k k' true sent id h w =
        subst (λ x. Grows k x × (ledger.has_key key x ≡ true)) (left k k' [] sent w) (λ q g. g, h)
    report_new-Grows e key k k' false sent none h w = absurd (ground (arith, w))
    report_new-Grows e key k k' false sent (some id) h w =
        subst (λ x. Grows k x × (ledger.has_key key x ≡ true)) (left _ k' _ sent w)
          (put-Grows key k, put_there key k)

    report-Done :
        (e : TaskEvent) (k k' : K) (sent : List SourceMessage)
        → report ledger cluster_name alloc job_id task e k ≡ some (sent, k')
        → Done (report ledger cluster_name alloc job_id task e) k k'
    unfolding report report_hashed report_new
    report-Done e k k' sent = go (ledger.hash e)
      where
        go :
            (hash : Option ℕ)
            → report_hashed ledger cluster_name alloc job_id task e k hash ≡ some (sent, k')
            → Done (λ x. report_hashed ledger cluster_name alloc job_id task e x hash) k k'
        go none w = absurd (ground (arith, w))
        go (some hash) w =
            let key = event_key cluster_name alloc.id hash in
            let grown = report_new-Grows e key k k' (ledger.has_key key k) sent job_id refl w in
            record { grows = grown.0; silent = λ later g. rw (g key grown.1) refl }

  report_all-Done :
      (alloc : Allocation) (job_id : Option String) (task : String) (events : List TaskEvent)
      (k k' : K) (sent : List SourceMessage)
      → report_all ledger cluster_name alloc job_id task events k ≡ some (sent, k')
      → Done (report_all ledger cluster_name alloc job_id task events) k k'
  unfolding report_all
  report_all-Done alloc job_id task [] k k' sent w = quiet-Done k k' sent w
  report_all-Done alloc job_id task (e ∷ events) k k' sent w =
      and_then-Done (report ledger cluster_name alloc job_id task e)
        (report_all ledger cluster_name alloc job_id task events) k k' sent
        (λ m out f. report-Done alloc job_id task e k m out f)
        (λ m n out f. report_all-Done alloc job_id task events m n out f) w

  watch_task-Done :
      (alloc : Allocation) (job_id : Option String) (task : String) (events : List TaskEvent)
      (config : TaskConfig) (k k' : K) (sent : List SourceMessage)
      → watch_task ledger cluster_name alloc job_id task events config k ≡ some (sent, k')
      → Done (watch_task ledger cluster_name alloc job_id task events config) k k'
  unfolding watch_task
  watch_task-Done alloc job_id task events config k k' sent =
      go (not config.enabled || not config.watch_nomad_events)
    where
      go :
          (off : Bool)
          → (if off
              then some ([], k)
              else report_all ledger cluster_name alloc job_id task events k)
            ≡ some (sent, k')
          → Done
              (λ x.
                if off
                then some ([], x)
                else report_all ledger cluster_name alloc job_id task events x)
              k
              k'
      go true w = quiet-Done k k' sent w
      go false w = report_all-Done alloc job_id task events k k' sent w

  watch_tasks-Done :
      (alloc : Allocation) (job_name job_id : Option String) (configs : Dict TaskConfig)
      (states : Dict (List TaskEvent)) (k k' : K) (sent : List SourceMessage)
      → watch_tasks ledger cluster_name alloc job_name job_id configs states k ≡ some (sent, k')
      → Done (watch_tasks ledger cluster_name alloc job_name job_id configs states) k k'
  unfolding watch_tasks
  watch_tasks-Done alloc job_name job_id configs [] k k' sent w = quiet-Done k k' sent w
  watch_tasks-Done alloc none job_id configs ((task, events) ∷ states) k k' sent w =
      absurd (ground (arith, w))
  watch_tasks-Done alloc (some name) job_id configs ((task, events) ∷ states) k k' sent w =
      go (lookup (name +++ ("/" +++ (alloc.task_group +++ ("/" +++ task)))) configs)
        (λ m n out f. watch_tasks-Done alloc (some name) job_id configs states m n out f) w
    where
      go :
          (found : Option TaskConfig)
          → ((m n : K) (out : List SourceMessage)
              → watch_tasks ledger cluster_name alloc (some name) job_id configs states m
                ≡ some (out, n)
              → Done (watch_tasks ledger cluster_name alloc (some name) job_id configs states) m n)
          → and_then ledger cluster_name
              (watch_found ledger cluster_name alloc job_id task events k found)
              (watch_tasks ledger cluster_name alloc (some name) job_id configs states)
            ≡ some (sent, k')
          → Done
              (λ x.
                and_then ledger cluster_name
                  (watch_found ledger cluster_name alloc job_id task events x found)
                  (watch_tasks ledger cluster_name alloc (some name) job_id configs states))
              k
              k'
      go none later w = absurd (ground (arith, w))
      go (some config) later w =
          and_then-Done (watch_task ledger cluster_name alloc job_id task events config)
            (watch_tasks ledger cluster_name alloc (some name) job_id configs states) k k' sent
            (λ m out f. watch_task-Done alloc job_id task events config k m out f) later w

  -- A tick that goes through leaves nothing to report for the next tick on the same allocation: that
  -- sends no message and changes no key, also if other keys were put in the meantime.
  pub watch_allocation_events_once :
      (alloc : Allocation) (k k' later : K) (sent : List SourceMessage)
      → watch_allocation_events ledger cluster_name alloc k ≡ some (sent, k')
      → ((key : String) → ledger.has_key key k' ≡ true → ledger.has_key key later ≡ true)
      → watch_allocation_events ledger cluster_name alloc later ≡ some ([], later)
  unfolding watch_allocation_events
  watch_allocation_events_once alloc k k' later sent w grown =
      go (new_from_allocation alloc) alloc.job w
    where
      go :
          (config : Option AllocationConfig) (job : Option Job)
          → (config >>= λ c. job >>= λ j.
              watch_tasks ledger cluster_name alloc j.name j.id c.task_configs alloc.task_states k)
            ≡ some (sent, k')
          → (config >>= λ c. job >>= λ j.
              watch_tasks ledger cluster_name alloc j.name j.id c.task_configs alloc.task_states
                later)
            ≡ some ([], later)
      go none job w = absurd (ground (arith, w))
      go (some c) none w = absurd (ground (arith, w))
      go (some c) (some j) w =
          (watch_tasks-Done alloc j.name j.id c.task_configs alloc.task_states k k' sent w).silent
            later grown
