-- ===== src/Nomad/Events/Reported.antt =====
-- The life of a worker beside the keys that it put: one message for each, and each put once.
use Prim.Native.String.{◌++◌ as ◌+++◌}
use mathlib.Core.Path.{subst}
use log_shipper.Base.{
  ◌≡◌, ◌≢◌, refl, arith, ℕ, ◌+◌, String, Bool, true, false, not, Option, none, some, List, [], ◌∷◌,
  eq_iff, ◌||◌, ◌>>=◌, map, Bool-cases, inl, inr,
}
use log_shipper.Base.Dict.{Dict, lookup}
use log_shipper.Base.Lists.{All, length, length-append}
use log_shipper.Message.{SourceMessage}
use log_shipper.Nomad.{TaskEvent, Job, Allocation}
use log_shipper.Nomad.Config.{TaskConfig, AllocationConfig, new_from_allocation}
use log_shipper.Nomad.Events.{
  Ledger, event_key, Sends, report_new, report_hashed, report, watch_found, extend, and_then,
  report_all, watch_task, watch_tasks, watch_allocation_events,
}
use log_shipper.Nomad.Events.Life.{Happening, ticks, stops, others, watch}
use log_shipper.Nomad.Events.Once.{Remembers}

-- The same Consul beside a list of the keys that the worker has put, the last of them first.
abbrev pub recorded : {K : Type 0} → Ledger K → Ledger (K × List String)
recorded ledger = record {
  has_key = λ key x. ledger.has_key key x.0;
  put = λ key x. (ledger.put key x.0, key ∷ x.1);
  hash = ledger.hash;
}

-- Others do to Consul what they do, and do not touch the list.
abbrev beside : {K : Type 0} → Happening K → Happening (K × List String)
beside (ticks info) = ticks info
beside stops = stops
beside (others change) = others (λ x. (change x.0, x.1))

-- No key is twice in the list.
abbrev pub OnceEach : List String → Type 0
OnceEach [] = Unit
OnceEach (key ∷ keys) = All (λ other. key ≢ other) keys × OnceEach keys

module _ {K : Type 0} (ledger : Ledger K) (cluster_name : String) where
  -- Others take no key away.
  abbrev pub Kept : Happening K → Type 0
  Kept (ticks info) = Unit
  Kept stops = Unit
  Kept (others change) =
      (key : String) (k : K) → ledger.has_key key k ≡ true → ledger.has_key key (change k) ≡ true

  module _ (first : K) where
    -- What holds of Consul and the list in a life that started at the keys `first`.
    record Sound (x : K × List String) : Type 0 where
      once : OnceEach x.1
      there : All (λ key. ledger.has_key key x.0 ≡ true) x.1
      fresh : All (λ key. ledger.has_key key first ≡ false) x.1
      grown : (key : String) → ledger.has_key key first ≡ true → ledger.has_key key x.0 ≡ true

    -- A step from a list of `n` keys that went through.
    abbrev After : ℕ → Sends (K × List String) → Type 0
    After n none = Unit
    After n (some (sent, x)) = Sound x × (length x.1 ≡ length sent + n)

    -- A step that is sound wherever it starts.
    abbrev Keeps : (K × List String → Sends (K × List String)) → Type 0
    Keeps f = (x : K × List String) → Sound x → After (length x.1) (f x)

    All-moved :
        (k k' : K) (keys : List String)
        → ((key : String) → ledger.has_key key k ≡ true → ledger.has_key key k' ≡ true)
        → All (λ key. ledger.has_key key k ≡ true) keys
        → All (λ key. ledger.has_key key k' ≡ true) keys
    All-moved k k' [] grows h = tt
    All-moved k k' (key ∷ keys) grows h = (grows key h.0, All-moved k k' keys grows h.1)

    All-other :
        (key : String) (k : K) (keys : List String)
        → ledger.has_key key k ≡ false
        → All (λ other. ledger.has_key other k ≡ true) keys
        → All (λ other. key ≢ other) keys
    All-other key k [] new h = tt
    All-other key k (other ∷ keys) new h = (λ e. cc, All-other key k keys new h.1)

    Sound-moved :
        (x : K × List String) (k : K)
        → ((key : String) → ledger.has_key key x.0 ≡ true → ledger.has_key key k ≡ true)
        → Sound x
        → Sound (k, x.1)
    Sound-moved x k grows h = record {
      once = h.once;
      there = All-moved x.0 k x.1 grows h.there;
      fresh = h.fresh;
      grown = λ key e. grows key (h.grown key e);
    }

    new_key :
        (key : String) (x : K × List String)
        → ledger.has_key key x.0 ≡ false
        → Sound x
        → ledger.has_key key first ≡ false
    new_key key x new h = elim (Bool-cases (ledger.has_key key first)) [
      | inl e ↦ let seen = h.grown key e in absurd (cc)
      | inr e ↦ e
    ]

    extend-After :
        (n : ℕ) (sent : List SourceMessage) (m : ℕ) (o : Sends (K × List String))
        → m ≡ length sent + n
        → After m o
        → After n (extend (recorded ledger) cluster_name sent o)
    unfolding extend
    extend-After n sent m none e h = tt
    extend-After n sent m (some (more, x)) e h = (h.0, omega (arith, h.1, length-append sent more))

    and_then-After :
        (n : ℕ) (o : Sends (K × List String)) (next : K × List String → Sends (K × List String))
        → After n o
        → Keeps next
        → After n (and_then (recorded ledger) cluster_name o next)
    unfolding and_then
    and_then-After n none next h rest = tt
    and_then-After n (some (sent, x)) next h rest =
        extend-After n sent (length x.1) (next x) h.1 (rest x h.0)

    module _ (remembers : Remembers ledger) where
      Sound-put :
          (key : String) (x : K × List String)
          → ledger.has_key key x.0 ≡ false
          → Sound x
          → Sound (ledger.put key x.0, key ∷ x.1)
      Sound-put key x new h =
          let grows : (wanted : String)
              → ledger.has_key wanted x.0 ≡ true
              → ledger.has_key wanted (ledger.put key x.0) ≡ true =
            λ wanted e. rw (remembers key wanted x.0) (ground (arith, e)) in
          let moved = Sound-moved x (ledger.put key x.0) grows h in
          record {
            once = (All-other key x.0 x.1 new h.there, h.once);
            there = (rw (remembers key key x.0) (ground (arith, eq_iff key key)), moved.there);
            fresh = (new_key key x new h, h.fresh);
            grown = moved.grown;
          }

      report_new-After :
          (alloc : Allocation) (job_id : Option String) (task : String) (e : TaskEvent)
          (key : String) (x : K × List String) (there : Bool)
          → ledger.has_key key x.0 ≡ there
          → Sound x
          → After
              (length x.1)
              (report_new (recorded ledger) cluster_name alloc job_id task e key x there)
      unfolding report_new
      report_new-After alloc job_id task e key x true t h = (h, omega arith)
      report_new-After alloc none task e key x false t h = tt
      report_new-After alloc (some id) task e key x false t h = (Sound-put key x t h, omega arith)

      report-Keeps :
          (alloc : Allocation) (job_id : Option String) (task : String) (e : TaskEvent)
          → Keeps (report (recorded ledger) cluster_name alloc job_id task e)
      unfolding report report_hashed
      report-Keeps alloc job_id task e x h = go (ledger.hash e)
        where
          go :
              (hash : Option ℕ)
              → After
                  (length x.1)
                  (report_hashed (recorded ledger) cluster_name alloc job_id task e x hash)
          go none = tt
          go (some hash) =
              let key = event_key cluster_name alloc.id hash in
              report_new-After alloc job_id task e key x (ledger.has_key key x.0) refl h

      report_all-Keeps :
          (alloc : Allocation) (job_id : Option String) (task : String) (events : List TaskEvent)
          → Keeps (report_all (recorded ledger) cluster_name alloc job_id task events)
      unfolding report_all
      report_all-Keeps alloc job_id task [] x h = (h, omega arith)
      report_all-Keeps alloc job_id task (e ∷ events) x h =
          and_then-After (length x.1) (report (recorded ledger) cluster_name alloc job_id task e x)
            (report_all (recorded ledger) cluster_name alloc job_id task events)
            (report-Keeps alloc job_id task e x h) (report_all-Keeps alloc job_id task events)

      watch_found-Keeps :
          (alloc : Allocation) (job_id : Option String) (task : String) (events : List TaskEvent)
          (found : Option TaskConfig)
          → Keeps (λ x. watch_found (recorded ledger) cluster_name alloc job_id task events x found)
      unfolding watch_found watch_task
      watch_found-Keeps alloc job_id task events none x h = tt
      watch_found-Keeps alloc job_id task events (some config) x h =
          elim (Bool-cases (not config.enabled || not config.watch_nomad_events)) [
            | inl off ↦ rw off (h, omega arith)
            | inr on ↦ rw on (report_all-Keeps alloc job_id task events x h)
          ]

      watch_tasks-Keeps :
          (alloc : Allocation) (job_name job_id : Option String) (configs : Dict TaskConfig)
          (states : Dict (List TaskEvent))
          → Keeps (watch_tasks (recorded ledger) cluster_name alloc job_name job_id configs states)
      unfolding watch_tasks
      watch_tasks-Keeps alloc job_name job_id configs [] x h = (h, omega arith)
      watch_tasks-Keeps alloc none job_id configs ((task, events) ∷ states) x h = tt
      watch_tasks-Keeps alloc (some name) job_id configs ((task, events) ∷ states) x h =
          let key = name +++ ("/" +++ (alloc.task_group +++ ("/" +++ task))) in
          let found = lookup key configs in
          and_then-After (length x.1)
            (watch_found (recorded ledger) cluster_name alloc job_id task events x found)
            (watch_tasks (recorded ledger) cluster_name alloc (some name) job_id configs states)
            (watch_found-Keeps alloc job_id task events found x h)
            (watch_tasks-Keeps alloc (some name) job_id configs states)

      watch_allocation_events-Keeps :
          (alloc : Allocation)
          → Keeps (watch_allocation_events (recorded ledger) cluster_name alloc)
      unfolding watch_allocation_events
      watch_allocation_events-Keeps alloc x h = go (new_from_allocation alloc) alloc.job
        where
          go :
              (config : Option AllocationConfig) (job : Option Job)
              → After (length x.1) (
                  config >>= λ c. job >>= λ j.
                  watch_tasks
                    (recorded ledger)
                    cluster_name
                    alloc
                    j.name
                    j.id
                    c.task_configs
                    alloc.task_states
                    x)
          go none job = tt
          go (some c) none = tt
          go (some c) (some j) = watch_tasks-Keeps alloc j.name j.id c.task_configs _ x h

      watch-Keeps :
          (events : List (Happening K))
          → All Kept events
          → Keeps (watch (recorded ledger) cluster_name (map beside events))
      unfolding watch
      watch-Keeps [] kept x h = (h, omega arith)
      watch-Keeps (ticks none ∷ rest) kept x h = (h, omega arith)
      watch-Keeps (ticks (some alloc) ∷ rest) kept x h =
          and_then-After (length x.1)
            (watch_allocation_events (recorded ledger) cluster_name alloc x)
            (watch (recorded ledger) cluster_name (map beside rest))
            (watch_allocation_events-Keeps alloc x h) (watch-Keeps rest kept.1)
      watch-Keeps (stops ∷ rest) kept x h = (h, omega arith)
      watch-Keeps (others change ∷ rest) kept x h =
          watch-Keeps rest kept.1 (change x.0, x.1)
            (Sound-moved x (change x.0) (λ key e. kept.0 key x.0 e) h)

  -- With a Consul that keeps the keys that are put, whatever Nomad says of the allocation at each
  -- tick, and whatever others do to Consul between ticks but for taking keys away: a worker that
  -- does not panic has put no key twice in its life, and none that was there at its start, and it
  -- has sent exactly one message for each key that it put.
  pub watch-reports_once :
      (remembers : Remembers ledger) (events : List (Happening K)) (k k' : K)
      (sent : List SourceMessage) (keys : List String)
      → All Kept events
      → watch (recorded ledger) cluster_name (map beside events) (k, []) ≡ some (sent, (k', keys))
      → OnceEach keys × All (λ key. ledger.has_key key k ≡ false) keys × (length sent ≡ length keys)
  watch-reports_once remembers events k k' sent keys kept went =
      let start : Sound k (k, []) = record {
        once = tt;
        there = tt;
        fresh = tt;
        grown = λ key e. e;
      } in
      let ends = subst (After k 0) went (watch-Keeps k remembers events kept (k, []) start) in
      (ends.0.once, ends.0.fresh, omega (arith, ends.1))
