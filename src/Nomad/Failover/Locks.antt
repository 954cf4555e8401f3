-- ===== src/Nomad/Failover/Locks.antt =====
-- What the locks of a client rest on, and what one round does to them.
use log_shipper.Base.{
  ℕ, zero, suc, ◌≤◌, ◌<◌, ◌≡◌, ◌⊎◌, inl, inr, refl, ap, ◌∙◌, String, Bool, true, false, Option,
  none, some, arith, str_eq, Bool-cases, if◌then◌else◌,
}
use log_shipper.Nomad.Failover.{
  KvPair, Cluster, Client, returns, leader_key, failover_key, lock, own_node, foreign, ours,
  acquire_leader, pause, await, give_back, attempted, decide, examine,
}

-- Consul's promises on locks: an acquired key names the session of its holder, and no call touches
-- another key than its own.
pub record Locks {K : Type 0} (cluster : Cluster K) : Type 0 where
  pub acquired_holds :
      (p : KvPair) (k k' : K)
      → cluster.acquire p k ≡ (some true, k')
      → (q : KvPair) × (cluster.get p.key k' ≡ some q) × (q.session ≡ p.session)
  pub acquire_frame :
      (p : KvPair) (key : String) (k : K)
      → str_eq key p.key ≡ false
      → cluster.get key (cluster.acquire p k).1 ≡ cluster.get key k
  pub release_frame :
      (p : KvPair) (key : String) (k : K)
      → str_eq key p.key ≡ false
      → cluster.get key (cluster.release p k) ≡ cluster.get key k
  pub delete_frame :
      (removed key : String) (k : K)
      → str_eq key removed ≡ false
      → cluster.get key (cluster.delete removed k) ≡ cluster.get key k

module _ {K : Type 0} (cluster : Cluster K) (c : Client) where
  -- The client's session holds the lock of a key.
  abbrev pub Holds : String → K → Type 0
  Holds key k = (q : KvPair) × (cluster.get key k ≡ some q) × (q.session ≡ c.session_id)

  -- Other clients give the leader lock up in the end: an attempt succeeds, or it fails and the time
  -- that is left, `busy`, goes down while the loop sleeps.
  abbrev pub GivesUp : (K → ℕ) → Type 0
  GivesUp busy =
      (k : K)
      → (k' : K) × ((acquire_leader cluster c k ≡ (some true, k'))
          ⊎ ((acquire_leader cluster c k ≡ (some false, k'))
              × (busy k' ≤ busy k)
              × (busy (cluster.sleep k') < busy k)))

  pub Holds-frame :
      (key : String) (k k' : K)
      → cluster.get key k' ≡ cluster.get key k
      → Holds key k
      → Holds key k'
  Holds-frame key k k' same (q, e, s) = (q, same ∙ e, s)

  module _ (laws : Locks cluster) (busy : K → ℕ) (gives_up : GivesUp busy) where
    led_by :
        (k k' : K)
        → acquire_leader cluster c k ≡ (some true, k')
        → Holds (leader_key c (own_node c)) k'
    led_by k k' e = laws.acquired_holds (lock c (leader_key c (own_node c))) k k' e

    await_retry :
        (n : ℕ) (k : K)
        → busy k < n
        → (k' : K) × (await cluster c n (some false, k) ≡ returns k')
          × Holds (leader_key c (own_node c)) k'
    unfolding await pause
    await_retry zero k left = absurd (omega arith)
    await_retry (suc n) k left =
        let attempt = gives_up k in
        let try = λ (r : Option Bool × K). await cluster c n (pause cluster c r) in
        elim attempt.1 [
          | inl e ↦ (attempt.0, ap try e, led_by k attempt.0 e)
          | inr e ↦
              let rest = await_retry n (cluster.sleep attempt.0) (omega arith) in
              (rest.0, ap try (e.0) ∙ rest.1, rest.2)
        ]

    -- The loop for the leader lock of the own node ends with the lock.
    pub await-Holds :
        (n : ℕ) (k : K)
        → busy k < n
        → (k' : K) × (await cluster c n (acquire_leader cluster c k) ≡ returns k')
          × Holds (leader_key c (own_node c)) k'
    unfolding await
    await-Holds n k left =
        let attempt = gives_up k in
        elim attempt.1 [
          | inl e ↦ (attempt.0, rw e refl, led_by k attempt.0 e)
          | inr e ↦
              let rest = await_retry n attempt.0 (omega arith) in
              (rest.0, rw (e.0) (rest.1), rest.2)
        ]

  give_back_frame :
      (laws : Locks cluster) (node key : String) (held : Bool) (k : K)
      → str_eq key (failover_key c node) ≡ false
      → cluster.get key (give_back cluster c node held k) ≡ cluster.get key k
  unfolding give_back
  give_back_frame laws node key true k apart =
      laws.delete_frame (failover_key c node) key _ apart
      ∙ laws.release_frame (lock c (failover_key c node)) key k apart
  give_back_frame laws node key false k apart = refl

  attempted_state : (r : Option Bool × K) → (attempted cluster c r).1 ≡ r.1
  unfolding attempted
  attempted_state (none, k) = refl
  attempted_state (some b, k) = refl

  attempted-true : (r : Option Bool × K) → (attempted cluster c r).0 ≡ true → r ≡ (some true, r.1)
  unfolding attempted
  attempted-true (none, k) e = absurd (ground (arith, e))
  attempted-true (some b, k) e = ap (λ x. (some x, k)) e

  decide_frame :
      (laws : Locks cluster) (node key : String) (lead fail : Option KvPair) (k : K)
      → str_eq key (failover_key c node) ≡ false
      → cluster.get key (decide cluster c node lead fail k).1 ≡ cluster.get key k
  unfolding decide
  decide_frame laws node key lead fail k apart = go (foreign c lead) (foreign c fail)
    where
      go :
          (led_away failed_away : Bool)
          → cluster.get key
              (if led_away
                then (false, give_back cluster c node (ours c fail) k)
                else if failed_away
                then (false, k)
                else attempted cluster c (cluster.acquire (lock c (failover_key c node)) k)).1
            ≡ cluster.get key k
      go true b = give_back_frame laws node key (ours c fail) k apart
      go false true = refl
      go false false =
          ap (cluster.get key) (attempted_state (cluster.acquire (lock c (failover_key c node)) k))
          ∙ laws.acquire_frame (lock c (failover_key c node)) key k apart

  decide-Holds :
      (laws : Locks cluster) (node : String) (lead fail : Option KvPair) (k : K)
      → (decide cluster c node lead fail k).0 ≡ true
      → Holds (failover_key c node) (decide cluster c node lead fail k).1
  unfolding decide
  decide-Holds laws node lead fail k = go (foreign c lead) (foreign c fail)
    where
      go :
          (led_away failed_away : Bool)
          → (if led_away
              then (false, give_back cluster c node (ours c fail) k)
              else if failed_away
              then (false, k)
              else attempted cluster c (cluster.acquire (lock c (failover_key c node)) k)).0
            ≡ true
          → Holds
              (failover_key c node)
              (if led_away
                then (false, give_back cluster c node (ours c fail) k)
                else if failed_away
                then (false, k)
                else attempted cluster c (cluster.acquire (lock c (failover_key c node)) k)).1
      go true b e = absurd (ground (arith, e))
      go false true e = absurd (ground (arith, e))
      go false false e =
          let r = cluster.acquire (lock c (failover_key c node)) k in
          let held =
            laws.acquired_holds (lock c (failover_key c node)) k r.1 (attempted-true r e) in
          (held.0, ap (cluster.get (failover_key c node)) (attempted_state r) ∙ held.1, held.2)

  pub examine_frame :
      (laws : Locks cluster) (node key : String) (k : K)
      → str_eq key (failover_key c node) ≡ false
      → cluster.get key (examine cluster c node k).1 ≡ cluster.get key k
  unfolding examine
  examine_frame laws node key k apart = elim (Bool-cases (str_eq node (own_node c))) [
    | inl own ↦ rw own refl
    | inr other ↦ rw other (decide_frame laws node key _ _ k apart)
  ]

  pub examine-Holds :
      (laws : Locks cluster) (node : String) (k : K)
      → (examine cluster c node k).0 ≡ true
      → Holds (failover_key c node) (examine cluster c node k).1
  unfolding examine
  examine-Holds laws node k = go (str_eq node (own_node c))
    where
      go :
          (own : Bool)
          → (if own
              then (false, k)
              else decide cluster c node
                  (cluster.get (leader_key c node) k)
                  (cluster.get (failover_key c node) k)
                  k).0
            ≡ true
          → Holds
              (failover_key c node)
              (if own
                then (false, k)
                else decide cluster c node
                    (cluster.get (leader_key c node) k)
                    (cluster.get (failover_key c node) k)
                    k).1
      go true e = absurd (ground (arith, e))
      go false e = decide-Holds laws node _ _ k e
