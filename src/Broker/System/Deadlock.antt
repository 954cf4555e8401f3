-- ===== src/Broker/System/Deadlock.antt =====
-- States of a running broker that no step leads out of.
use log_shipper.Base.{
  ℕ, ◌≤◌, ◌≡◌, refl, ap, sym, ◌∙◌, arith, String, Bool, true, false, not, List, [], ◌∷◌, inl, inr,
  ◌⊎◌, Bool-cases, eq_iff,
}
use log_shipper.Base.Lists.{length}
use log_shipper.Broker.Manager.{contains, finds_target, add_message}
use log_shipper.Broker.System.{
  Activity, working, sending, System, Pick, here, there, Step, hand_over, send, send_nowhere,
  worker_waits, complete_and_return, fall_back, take_over, lose, lose_and_return, target_returns,
  target_fails, launched, Reach, start, later, busy, listed,
}
use log_shipper.Broker.System.Counting.{Reach-Inv, launched-Inv, complete_message-Completed}
use log_shipper.Broker.System.Shutdown.{append-Reach, stop_finds_nothing}

-- An item stands in a list.
pub data In {A : Type 0} (x : A) : List A → Type 0 where
  first : (rest : List A) → In x (x ∷ rest)
  next : (y : A) {rest : List A} → In x rest → In x (y ∷ rest)

In-Pick :
    {A : Type 0} {x y : A} {items rest : List A}
    → In x items
    → Pick y items rest
    → (x ≡ y) ⊎ In x rest
In-Pick (first rest) (here _) = inl refl
In-Pick (first rest) (there _ p) = inr (first _)
In-Pick (next _ i) (here _) = inr i
In-Pick (next y i) (there _ p) = elim (In-Pick i p) [ inl e ↦ inl e | inr j ↦ inr (next y j) ]

In-busy :
    {t : String} {a : Activity} {active : List (String × Activity)}
    → In (t, a) active
    → busy t active ≡ true
In-busy {t} (first rest) = ground (arith, eq_iff t t)
In-busy {t} (next (u, b) i) = ground (arith, In-busy i)

-- Two targets whose fallbacks wait for each other; they may be one.
pub record Embraced (a b : String) (s : System) : Type 0 where
  pub forth : In (a, sending b) s.active
  pub back : In (b, sending a) s.active

is_working :
    {t u : String} {active rest : List (String × Activity)} {x : String}
    → In (t, sending u) active
    → Pick (x, working) active rest
    → In (t, sending u) rest
is_working i p = elim (In-Pick i p) [
  | inl e ↦ absurd (cc (ap (λ (z : String × Activity). z.1) e))
  | inr j ↦ j
]

sent_to : Activity → String
sent_to working = ""
sent_to (sending u) = u

clash : (b : Bool) → b ≡ true → b ≡ false → ⊥
clash true e f = ground (arith, f)
clash false e f = ground (arith, e)

still_waiting :
    {t u v : String} {active rest : List (String × Activity)} {x : String}
    → In (t, sending u) active
    → Pick (x, sending v) active rest
    → busy u active ≡ true
    → busy v active ≡ false
    → In (t, sending u) rest
unfolding sent_to
still_waiting {u} {v} {active} i p blocked idle = elim (In-Pick i p) [
  | inl e ↦
      let same : u ≡ v = ap (λ (z : String × Activity). sent_to z.1) e in
      absurd (clash (busy u active) blocked (ap (λ x. busy x active) same ∙ idle))
  | inr j ↦ j
]

Step-In :
    {t u : String} {s s' : System}
    → In (t, sending u) s.active
    → busy u s.active ≡ true
    → Step s s'
    → In (t, sending u) s'.active
Step-In i b (send p f k) = next _ i
Step-In i b (Step.complete p e) = is_working i p
Step-In i b (complete_and_return p e d) = is_working i p
Step-In i b (fall_back u p f) = next _ (is_working i p)
Step-In i b (take_over p k) = next _ (still_waiting i p b k.0)
Step-In i b (lose p) = is_working i p
Step-In i b (lose_and_return p d) = is_working i p
Step-In i b _ = i

Step-Embraced : {a b : String} {s t : System} → Embraced a b s → Step s t → Embraced a b t
Step-Embraced e step = record {
  forth = Step-In e.forth (In-busy e.back) step;
  back = Step-In e.back (In-busy e.forth) step;
}

Reach-Embraced : {a b : String} {s t : System} → Embraced a b s → Reach s t → Embraced a b t
Reach-Embraced e start = e
Reach-Embraced e (later r step) = Step-Embraced (Reach-Embraced e r) step

head_or : String → List String → String
head_or d [] = d
head_or d (x ∷ xs) = x

opposite : (b : Bool) → b ≡ not b → ⊥
opposite true e = ground (arith, e)
opposite false e = ground (arith, e)

-- A worker that holds a message for a target of the broker whose goroutine has returned.
pub record Abandoned (u : String) (targets : List String) (s : System) : Type 0 where
  pub held : In (u ∷ targets) s.carried
  pub gone : listed u s.ended ≡ true
  pub known : finds_target u s.manager ≡ true

other_target :
    {u t : String} {us ts : List String} {carried rest : List (List String)} (f : String → Bool)
    (b : Bool)
    → In (u ∷ us) carried
    → Pick (t ∷ ts) carried rest
    → f u ≡ not b
    → f t ≡ b
    → In (u ∷ us) (ts ∷ rest)
unfolding head_or
other_target {u} {t} f b i p no_u yes_t = elim (In-Pick i p) [
  | inl e ↦ absurd (opposite b (sym yes_t ∙ sym (ap (λ xs. f (head_or u xs)) e) ∙ no_u))
  | inr j ↦ next _ j
]

not_done :
    {u : String} {us : List String} {carried rest : List (List String)}
    → In (u ∷ us) carried
    → Pick [] carried rest
    → In (u ∷ us) rest
not_done i p = elim (In-Pick i p) [ inl e ↦ absurd (cc e) | inr j ↦ j ]

same_connectors :
    {s t : System} → Step s t → t.manager.target_connectors ≡ s.manager.target_connectors
unfolding add_message
same_connectors (Step.complete p e) = (complete_message-Completed _ e).same_targets
same_connectors (complete_and_return p e d) = (complete_message-Completed _ e).same_targets
same_connectors _ = refl

still_gone :
    {s t : System} (u : String) → Step s t → listed u s.ended ≡ true → listed u t.ended ≡ true
still_gone u (complete_and_return p e d) g = ground arith
still_gone u (lose_and_return p d) g = ground arith
still_gone u (target_returns t c f i d) g = ground arith
still_gone u (target_fails t f i d) g = ground arith
still_gone u _ g = g

still_held :
    {s t : System} {u : String} {us : List String}
    → Abandoned u us s
    → Step s t
    → In (u ∷ us) t.carried
still_held {s} a (send p f k) = other_target (λ x. listed x s.ended) false a.held p a.gone k.1
still_held {s} a (send_nowhere p f) =
    other_target (λ x. finds_target x s.manager) false a.held p a.known f
still_held a (worker_waits p) = not_done a.held p
still_held a (hand_over p e) = next _ a.held
still_held a _ = a.held

Step-Abandoned :
    {u : String} {us : List String} {s t : System} → Abandoned u us s → Step s t → Abandoned u us t
unfolding finds_target
Step-Abandoned {u} a step = record {
  held = still_held a step;
  gone = still_gone u step a.gone;
  known = ap (contains u) (same_connectors step) ∙ a.known;
}

Reach-Abandoned :
    {u : String} {us : List String} {s t : System} → Abandoned u us s → Reach s t → Abandoned u us t
Reach-Abandoned a start = a
Reach-Abandoned a (later r step) = Step-Abandoned (Reach-Abandoned a r) step

In-length : {A : Type 0} {x : A} {xs : List A} → In x xs → 1 ≤ length xs
In-length (first rest) = omega arith
In-length (next y i) = omega arith

module _ (sources targets : List String) (workers : ℕ) where
  -- Two targets whose fallbacks wait for each other, or one that falls back to itself, wait for
  -- ever: in all that follows they do, their messages stay in flight, and no target is told to stop.
  pub Embraced-blocks :
      {s t : System} (a b : String)
      → Reach (launched sources targets workers) s
      → Embraced a b s
      → Reach s t
      → Embraced a b t × (1 ≤ t.manager.in_flight) × (t.manager.target_stop_closed ≡ false)
  Embraced-blocks {s} {t} a b r e q =
      let still = Reach-Embraced e q in
      let whole = append-Reach r q in
      let inv = Reach-Inv (launched-Inv sources targets workers) whole in
      let some_active = In-length still.forth in
      (
        still,
        omega (arith, inv.messages),
        elim (Bool-cases t.manager.target_stop_closed) [
          | inl closed ↦
              let none_left =
                ap (length {A = String × Activity})
                  (stop_finds_nothing sources targets workers whole closed).2 in
              absurd (omega arith)
          | inr opened ↦ opened
        ],
      )

  -- A worker with a message for a target that has returned waits for ever: in all that follows it
  -- does, the workers never stop, and no target is told to stop.
  pub Abandoned-blocks :
      {s t : System} (u : String) (us : List String)
      → Reach (launched sources targets workers) s
      → Abandoned u us s
      → Reach s t
      → Abandoned u us t × (1 ≤ t.workers) × (t.manager.target_stop_closed ≡ false)
  Abandoned-blocks {s} {t} u us r a q =
      let still = Reach-Abandoned a q in
      let whole = append-Reach r q in
      let inv = Reach-Inv (launched-Inv sources targets workers) whole in
      let some_carried = In-length still.held in
      (
        still,
        omega (arith, inv.worker_group),
        elim (Bool-cases t.manager.target_stop_closed) [
          | inl closed ↦
              let none_left =
                ap (length {A = List String})
                  (stop_finds_nothing sources targets workers whole closed).1 in
              absurd (omega arith)
          | inr opened ↦ opened
        ],
      )
