-- ===== src/Nomad/Failover.antt =====
-- source/nomad/client.go: `getAllocations`, the nodes that a client ships for and their locks.
pub mod Locks
pub mod Nodes
mod Tests
use Prim.Native.String.{◌++◌ as ◌+++◌}
use log_shipper.Base.{
  ℕ, zero, suc, String, Bool, true, false, not, Option, none, some, List, [], ◌∷◌, ◌++◌,
  if◌then◌else◌, str_eq, ◌>>=◌,
}
use log_shipper.Base.Dict.{Dict, lookup}
use log_shipper.Nomad.{Allocation}
use log_shipper.Nomad.Config.{text_or}

-- `consulAPI.KVPair`: a key, and the session that holds it as a lock.
pub record KvPair : Type 0 where
  pub key : String
  pub value : String
  pub session : String

-- What the code calls of Consul and Nomad, at a state `K` of both. An error is `none`; those of
-- `Get`, `Release` and `Delete` are dropped by the code. `sleep` is what others do while the loop
-- for the lock of the own node sleeps.
pub record Cluster (K : Type 0) : Type 0 where
  pub get : String → K → Option KvPair
  pub acquire : KvPair → K → Option Bool × K
  pub release : KvPair → K → K
  pub delete : String → K → K
  pub sleep : K → K
  pub node_ids : K → Option (List String)
  pub node_allocations : String → K → Option (List Allocation)

pub record Client : Type 0 where
  pub config : Dict String
  pub cluster_name : String
  pub session_id : String

pub data Result (A : Type 0) : Type 0 where
  returns : A → Result A
  panics out_of_fuel : Result A

abbrev pub own_node : Client → String
own_node c = text_or "" (lookup "node" c.config)

abbrev wants_failover : Client → Bool
wants_failover c = str_eq (text_or "" (lookup "failover" c.config)) "yes"

abbrev lock_key : Client → String → String → String
lock_key c node kind =
    "log-shipper/nomad/locks/" +++ (c.cluster_name +++ ("/nodes/" +++ (node +++ kind)))

abbrev pub leader_key : Client → String → String
leader_key c node = lock_key c node "/leader"

abbrev pub failover_key : Client → String → String
failover_key c node = lock_key c node "/failover"

abbrev lock : Client → String → KvPair
lock c key = record { key = key; value = "primary node: " +++ own_node c; session = c.session_id }

-- `existing != nil && existing.Session != c.sessionID`, and the same with `==`.
abbrev foreign : Client → Option KvPair → Bool
foreign c none = false
foreign c (some existing) = not (str_eq existing.session c.session_id)

abbrev ours : Client → Option KvPair → Bool
ours c none = false
ours c (some existing) = str_eq existing.session c.session_id

module _ {K : Type 0} (cluster : Cluster K) (c : Client) where
  abbrev pub acquire_leader : K → Option Bool × K
  acquire_leader k = cluster.acquire (lock c (leader_key c (own_node c))) k

  pause : Option Bool × K → Option Bool × K
  pause (none, k) = (none, k)
  pause (some true, k) = (some true, k)
  pause (some false, k) = (some false, cluster.sleep k)

  -- The loop `for !acquired`.
  pub await : ℕ → Option Bool × K → Result K
  unfolding pause
  await n (none, k) = panics
  await n (some true, k) = returns k
  await zero (some false, k) = out_of_fuel
  await (suc n) (some false, k) = await n (pause (acquire_leader k))

  give_back : String → Bool → K → K
  give_back node held k =
      if held
      then cluster.delete (failover_key c node) (cluster.release (lock c (failover_key c node)) k)
      else k

  attempted : Option Bool × K → Bool × K
  attempted (none, k) = (false, k)
  attempted (some acquired, k) = (acquired, k)

  -- The lock of another node, given what is known of its leader lock and its failover lock.
  decide : String → Option KvPair → Option KvPair → K → Bool × K
  unfolding give_back attempted
  decide node existing_lock existing_failover_lock k =
      if foreign c existing_lock
      then (false, give_back node (ours c existing_failover_lock) k)
      else if foreign c existing_failover_lock
      then (false, k)
      else attempted (cluster.acquire (lock c (failover_key c node)) k)

  -- One round of the loop over the other nodes.
  pub examine : String → K → Bool × K
  unfolding decide
  examine node k =
      if str_eq node (own_node c)
      then (false, k)
      else decide node (cluster.get (leader_key c node) k) (cluster.get (failover_key c node) k) k

  pub take_over : List String → K → List String × K
  unfolding examine
  take_over [] k = ([], k)
  take_over (node ∷ nodes) k =
      let step = examine node k in
      let rest = take_over nodes step.1 in (if step.0 then node ∷ rest.0 else rest.0, rest.1)

  others : Bool → K → Result (List String × K)
  unfolding take_over
  others false k = returns (own_node c ∷ [], k)
  others true k = with_list (cluster.node_ids k)
    where
      with_list : Option (List String) → Result (List String × K)
      with_list none = panics
      with_list (some nodes) =
          let taken = take_over nodes k in returns (own_node c ∷ taken.0, taken.1)

  led : Result K → Result (List String × K)
  unfolding others
  led (returns k) = others (wants_failover c) (cluster.delete (failover_key c (own_node c)) k)
  led panics = panics
  led out_of_fuel = out_of_fuel

  -- `nodesToSync`, once the locks are settled.
  unfoldable pub nodes_to_sync : ℕ → K → Result (List String × K)
  unfolding led await
  nodes_to_sync fuel k = led (await fuel (acquire_leader k))

  fetch_all : K → List String → Option (List Allocation)
  fetch_all k [] = some []
  fetch_all k (node ∷ nodes) = do
    first ← cluster.node_allocations node k
    rest ← fetch_all k nodes
    some (first ++ rest)

  fetched : Option (List Allocation) → Result (List Allocation)
  fetched none = panics
  fetched (some allocations) = returns allocations

  fetch : Result (List String × K) → Result (List Allocation)
  unfolding fetch_all fetched
  fetch (returns (nodes, k)) = fetched (fetch_all k nodes)
  fetch panics = panics
  fetch out_of_fuel = out_of_fuel

  unfoldable pub get_allocations : ℕ → K → Result (List Allocation)
  unfolding nodes_to_sync fetch fetch_all fetched
  get_allocations fuel k =
      if str_eq (own_node c) ""
      then fetched (cluster.node_ids k >>= fetch_all k)
      else fetch (nodes_to_sync fuel k)
