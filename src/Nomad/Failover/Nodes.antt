-- ===== src/Nomad/Failover/Nodes.antt =====
-- A client ships only for nodes whose lock it holds.
use log_shipper.Base.{
  ℕ, ◌<◌, ◌≡◌, refl, ◌∙◌, String, Bool, true, false, some, List, [], ◌∷◌, str_eq, if◌then◌else◌,
}
use log_shipper.Nomad.Failover.{
  Cluster, Client, returns, leader_key, failover_key, own_node, wants_failover, examine, take_over,
  others, led, nodes_to_sync,
}
use log_shipper.Nomad.Failover.Locks.{
  Locks, Holds, Holds-frame, GivesUp, await-Holds, examine_frame, examine-Holds,
}

-- A key is none of the failover keys of the nodes, and these keys differ from each other.
abbrev pub Apart : Client → String → List String → Type 0
Apart c key [] = Unit
Apart c key (node ∷ nodes) = (str_eq key (failover_key c node) ≡ false) × Apart c key nodes

abbrev pub AllApart : Client → List String → Type 0
AllApart c [] = Unit
AllApart c (node ∷ nodes) = Apart c (failover_key c node) nodes × AllApart c nodes

module _ {K : Type 0} (cluster : Cluster K) (c : Client) where
  -- The client holds the failover locks of the nodes.
  abbrev pub AllHeld : List String → K → Type 0
  AllHeld [] k = Unit
  AllHeld (node ∷ nodes) k = Holds cluster c (failover_key c node) k × AllHeld nodes k

  module _ (laws : Locks cluster) where
    take_over_frame :
        (key : String) (nodes : List String) (k : K)
        → Apart c key nodes
        → cluster.get key (take_over cluster c nodes k).1 ≡ cluster.get key k
    unfolding take_over
    take_over_frame key [] k apart = refl
    take_over_frame key (node ∷ nodes) k apart =
        take_over_frame key nodes (examine cluster c node k).1 apart.1
        ∙ examine_frame cluster c laws node key k apart.0

    take_over_held :
        (nodes : List String) (k : K)
        → AllApart c nodes
        → AllHeld (take_over cluster c nodes k).0 (take_over cluster c nodes k).1
    unfolding take_over
    take_over_held [] k apart = tt
    take_over_held (node ∷ nodes) k apart =
        let step = examine cluster c node k in
        go (take_over cluster c nodes step.1) step.0
          (λ e.
            Holds-frame cluster c (failover_key c node) _ _
              (take_over_frame (failover_key c node) nodes step.1 apart.0)
              (examine-Holds cluster c laws node k e))
          (take_over_held nodes step.1 apart.1)
      where
        go :
            (rest : List String × K) (taken : Bool)
            → (taken ≡ true → Holds cluster c (failover_key c node) rest.1)
            → AllHeld rest.0 rest.1
            → AllHeld (if taken then node ∷ rest.0 else rest.0) rest.1
        go rest true held later = (held refl, later)
        go rest false held later = later

  -- Let Consul keep its promises on locks, let the other holders of the leader lock of the client's
  -- node give it up within the time that `busy` tells, and let Nomad list nodes whose lock keys
  -- differ. Then, with more fuel than that time, the client settles on its own node and further
  -- nodes, without a panic, and it holds the leader lock of its node and the failover lock of each
  -- further one when it goes on to read their allocations.
  pub nodes_to_sync_held :
      (laws : Locks cluster) (busy : K → ℕ)
      → GivesUp cluster c busy
      → (nodes : List String) → ((k : K) → cluster.node_ids k ≡ some nodes)
      → Apart c (leader_key c (own_node c)) (own_node c ∷ nodes)
      → AllApart c nodes
      → (fuel : ℕ) (k : K) → busy k < fuel
      → (taken : List String) × (k' : K) × (nodes_to_sync cluster c fuel k
          ≡ returns (own_node c ∷ taken, k'))
        × Holds cluster c (leader_key c (own_node c)) k'
        × AllHeld taken k'
  unfolding nodes_to_sync led
  nodes_to_sync_held laws busy gives_up nodes lists own_apart apart fuel k enough =
      let leading = await-Holds cluster c laws busy gives_up fuel k enough in
      let cleared = cluster.delete (failover_key c (own_node c)) leading.0 in
      let kept =
        Holds-frame cluster c (leader_key c (own_node c)) leading.0 cleared
          (laws.delete_frame _ _ leading.0 own_apart.0) leading.2 in
      rw (leading.1) (go (wants_failover c) cleared kept)
    where
      go :
          (failover : Bool) (cleared : K)
          → Holds cluster c (leader_key c (own_node c)) cleared
          → (taken : List String) × (k' : K) × (others cluster c failover cleared
              ≡ returns (own_node c ∷ taken, k'))
            × Holds cluster c (leader_key c (own_node c)) k'
            × AllHeld taken k'
      go false cleared kept = ([], cleared, refl, kept, tt)
      go true cleared kept =
          let end = take_over cluster c nodes cleared in
          (
            end.0,
            end.1,
            rw (lists cleared) refl,
            Holds-frame cluster c (leader_key c (own_node c)) cleared end.1
                (take_over_frame laws (leader_key c (own_node c)) nodes cleared own_apart.1) kept,
            take_over_held laws nodes cleared apart,
          )
