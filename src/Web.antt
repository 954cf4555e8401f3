-- ===== src/Web.antt =====
-- web/api/: what the API answers about sources, targets and workers, from the monitor of this
-- node or by asking another one.
pub mod Nodes
pub mod Breaches
mod Tests
use Prim.Native.String.{◌++◌ as append}
use log_shipper.Base.{
  ℕ, ◌+◌, ◌⊎◌, inl, inr, String, Bool, true, false, Option, none, some, List, [], ◌∷◌, map,
  if◌then◌else◌, str_eq,
}
use log_shipper.Base.Lists.{length}
use log_shipper.Base.Decimal.{decimal}
use log_shipper.Limiter.{RateLimiter, is_over_limit, is_average_over_limit, get_current}
use log_shipper.Monitoring.{Details, Connection, Process, Monitor}

pub record ApiSource : Type 0 where
  pub id : String
  pub connection : String
  pub state : String
  pub provider : String
  pub bytes_processed : String
  pub inbound_messages : ℕ
  pub outbound_messages : ℕ
  pub inflight_messages : ℕ
  pub dropped_messages : ℕ

pub record ApiRateLimiter : Type 0 where
  pub id : String
  pub limit : String
  pub average : String
  pub current : String
  pub average_breached : Bool
  pub current_breached : Bool
  pub stored_metrics : ℕ
  pub interval : String

pub record ApiTarget : Type 0 where
  pub id : String
  pub connection : String
  pub state : String
  pub provider : String
  pub bytes_processed : String
  pub inbound_messages : ℕ
  pub outbound_messages : ℕ
  pub inflight_messages : ℕ
  pub dropped_messages : ℕ
  pub resent_messages : ℕ
  pub rate_limiters : List ApiRateLimiter

pub record ApiWorker : Type 0 where
  pub id : String
  pub state : String
  pub bytes_processed : String
  pub inbound_messages : ℕ
  pub outbound_messages : ℕ
  pub inflight_messages : ℕ

-- The texts of sizes and durations.
pub record Texts : Type 0 where
  pub byte_size : ℕ → String
  pub duration : ℕ → String

-- The status of an answer, with its body; the body of an error is its text.
pub data Answer (A : Type 0) : Type 0 where
  status_ok : A → Answer A
  internal_server_error : String → Answer A

-- A request to another node: what it is answered, what is read of that, and the JSON there; each can
-- end in an error.
pub record HttpClient (R A : Type 0) : Type 0 where
  pub get : String → String ⊎ R
  pub read_all : R → String ⊎ List ℕ
  pub unmarshal : List ℕ → String ⊎ A

-- `fmt.Sprintf("%s:%d", host, port)`.
abbrev pub address_text : String → ℕ → String
address_text host port = append host (append ":" (decimal port))

module _ {R A : Type 0} (client : HttpClient R A) where
  decoded : String ⊎ A → Answer A
  decoded (inl err) = internal_server_error err
  decoded (inr answer) = status_ok answer

  body_read : String ⊎ List ℕ → Answer A
  unfolding decoded
  body_read (inl err) = internal_server_error err
  body_read (inr body) = decoded (client.unmarshal body)

  responded : String ⊎ R → Answer A
  unfolding body_read
  responded (inl err) = internal_server_error err
  responded (inr response) = body_read (client.read_all response)

  ask : String → String → Answer A
  unfolding responded
  ask path addr = responded (client.get (append "http://" (append addr path)))

-- A view, of another node if one is named.
route : {R A : Type 0} → HttpClient R A → String → String → A → Answer A
unfolding ask
route client path node own = if str_eq node "" then status_ok own else ask client path node

module _ (texts : Texts) where
  show_source : Connection → ApiSource
  show_source c = record {
    id = c.name;
    connection = address_text c.details.host c.details.port;
    state = c.state;
    provider = c.provider;
    bytes_processed = texts.byte_size c.stats.bytes_processed;
    inbound_messages = c.stats.messages_inbound;
    outbound_messages = c.stats.messages_outbound;
    inflight_messages = c.stats.messages_in_flight;
    dropped_messages = 0;
  }

  list_sources : List Connection → List ApiSource
  unfolding show_source
  list_sources [] = []
  list_sources (c ∷ connections) =
      let rest = list_sources connections in
      if str_eq c.connection_type "source" then show_source c ∷ rest else rest

  unfoldable pub get_sources :
      {R : Type 0} → HttpClient R (List ApiSource) → String → Monitor → Answer (List ApiSource)
  unfolding route list_sources
  get_sources client node m = route client "/api/sources" node (list_sources m.connections)

  show_limiter : ℕ → RateLimiter → ApiRateLimiter
  show_limiter i r = record {
    id = append "limiter_" (decimal i);
    limit = texts.byte_size r.limit;
    average = texts.byte_size (is_average_over_limit r).1;
    current = texts.byte_size (get_current r);
    average_breached = (is_average_over_limit r).2;
    current_breached = (is_over_limit r).1;
    stored_metrics = length r.items;
    interval = texts.duration r.interval;
  }

  show_limiters : ℕ → List RateLimiter → List ApiRateLimiter
  unfolding show_limiter
  show_limiters i [] = []
  show_limiters i (r ∷ limiters) = show_limiter i r ∷ show_limiters (i + 1) limiters

  show_target : Connection → List RateLimiter → ApiTarget
  unfolding show_limiters
  show_target c limiters = record {
    id = c.name;
    connection = address_text c.details.host c.details.port;
    state = c.state;
    provider = c.provider;
    bytes_processed = texts.byte_size c.stats.bytes_processed;
    inbound_messages = c.stats.messages_inbound;
    outbound_messages = c.stats.messages_outbound;
    inflight_messages = c.stats.messages_in_flight;
    dropped_messages = 0;
    resent_messages = c.stats.resent_messages;
    rate_limiters = show_limiters 0 limiters;
  }

  -- The limiters of a connection stand with the rules of its target.
  list_targets : (Connection → List RateLimiter) → List Connection → List ApiTarget
  unfolding show_target
  list_targets limiters_of [] = []
  list_targets limiters_of (c ∷ connections) =
      let rest = list_targets limiters_of connections in
      if str_eq c.connection_type "target" then show_target c (limiters_of c) ∷ rest else rest

  unfoldable pub get_targets :
      {R : Type 0}
      → HttpClient R (List ApiTarget)
      → String
      → (Connection → List RateLimiter)
      → Monitor
      → Answer (List ApiTarget)
  unfolding route list_targets
  get_targets client node limiters_of m =
      route client "/api/targets" node (list_targets limiters_of m.connections)

  show_worker : Process → ApiWorker
  show_worker p = record {
    id = p.name;
    state = p.state;
    bytes_processed = texts.byte_size p.stats.bytes_processed;
    inbound_messages = p.stats.messages_inbound;
    outbound_messages = p.stats.messages_outbound;
    inflight_messages = p.stats.messages_in_flight;
  }

  list_workers : List Process → List ApiWorker
  unfolding show_worker
  list_workers [] = []
  list_workers (p ∷ processes) =
      let rest = list_workers processes in
      if str_eq p.process_type "worker" then show_worker p ∷ rest else rest

  unfoldable pub get_workers :
      {R : Type 0} → HttpClient R (List ApiWorker) → String → Monitor → Answer (List ApiWorker)
  unfolding route list_workers
  get_workers client node m = route client "/api/workers" node (list_workers m.processes)
