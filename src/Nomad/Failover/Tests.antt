-- ===== src/Nomad/Failover/Tests.antt =====
-- The theorem on the nodes of a client at a cluster of two nodes, whose first is held by another
-- client for one more tick.
use log_shipper.Base.{
  ℕ, zero, suc, ◌≡◌, refl, ap, sym, ◌∙◌, eq_iff, inl, inr, String, Bool, true, false, Option, none,
  some, List, [], ◌∷◌, arith, str_eq, if◌then◌else◌,
}
use log_shipper.Base.Dict.{lookup}
use log_shipper.Nomad.Failover.{KvPair, Cluster, Client, returns, leader_key, nodes_to_sync}
use log_shipper.Nomad.Failover.Locks.{Locks, Holds, GivesUp}
use log_shipper.Nomad.Failover.Nodes.{AllHeld, nodes_to_sync_held}

-- The locks, and the ticks for which another client keeps all that it holds.
abbrev State : Type 0
State = (String → Option KvPair) × ℕ

abbrev acquire_in : KvPair → State → Option Bool × State
acquire_in p (locks, zero) =
    (some true, ((λ key. if str_eq key p.key then some p else locks key), zero))
acquire_in p (locks, suc n) = (some false, (locks, suc n))

abbrev tick : State → State
tick (locks, zero) = (locks, zero)
tick (locks, suc n) = (locks, n)

abbrev remove_in : String → State → State
remove_in removed k = ((λ key. if str_eq key removed then none else k.0 key), k.1)

abbrev cluster : Cluster State
cluster = record {
  get = λ key k. k.0 key;
  acquire = acquire_in;
  release = λ p k. remove_in p.key k;
  delete = remove_in;
  sleep = tick;
  node_ids = λ k. some ("n1" ∷ "n2" ∷ []);
  node_allocations = λ node k. some [];
}

abbrev client : Client
client = record {
  config = ("node", "n1") ∷ ("failover", "yes") ∷ [];
  cluster_name = "c";
  session_id = "s";
}

locks : Locks cluster
locks = record {
  acquired_holds = holds;
  acquire_frame = frame;
  release_frame = λ p key k apart. rw apart refl;
  delete_frame = λ removed key k apart. rw apart refl;
}
  where
    holds :
        (p : KvPair) (k k' : State)
        → acquire_in p k ≡ (some true, k')
        → (q : KvPair) × (k'.0 p.key ≡ some q) × (q.session ≡ p.session)
    holds p (held, zero) k' e =
        let written = ap (λ (x : Option Bool × State). x.1.0 p.key) e in
        (p, sym written ∙ rw ((eq_iff p.key p.key).1 refl) refl, refl)
    holds p (held, suc n) k' e = absurd (ground (arith, e))

    frame :
        (p : KvPair) (key : String) (k : State)
        → str_eq key p.key ≡ false
        → (acquire_in p k).1.0 key ≡ k.0 key
    frame p key (held, zero) apart = rw apart refl
    frame p key (held, suc n) apart = refl

gives_up : GivesUp cluster client (λ k. k.1)
gives_up (held, zero) = (_, inl refl)
gives_up (held, suc n) = (_, inr (refl, omega arith, omega arith))

abbrev start : State
start = ((λ key. none), 1)

nodes_to_sync_held_example :
    (taken : List String) × (k' : State) × (nodes_to_sync cluster client 2 start
      ≡ returns ("n1" ∷ taken, k'))
    × Holds cluster client (leader_key client "n1") k'
    × AllHeld cluster client taken k'
unfolding lookup
nodes_to_sync_held_example =
    nodes_to_sync_held cluster client locks (λ k. k.1) gives_up ("n1" ∷ "n2" ∷ []) (λ k. refl)
      (refl, (refl, (refl, tt))) ((refl, tt), (tt, tt)) 2 start (omega arith)
