-- ===== src/Nomad.antt =====
-- source/nomad/: the source that follows a Nomad cluster, its allocations and their settings, and the
-- workers that report on them.
pub mod Pool
pub mod Config
pub mod Failover
pub mod Events
pub mod Workers
use log_shipper.Base.{ℕ, String, Option, List}
use log_shipper.Base.Dict.{Dict}

-- What the code reads of an allocation; a pointer that may be nil is an `Option`. The states of the
-- tasks are shown by their events.
pub record Task : Type 0 where
  pub name : String
  pub meta : Dict String

pub record TaskGroup : Type 0 where
  pub name : Option String
  pub tasks : List Task
  pub meta : Dict String

pub record Job : Type 0 where
  pub id : Option String
  pub name : Option String
  pub task_groups : List TaskGroup
  pub meta : Dict String

pub record TaskEvent : Type 0 where
  pub event_type : String
  pub driver_message : String
  pub driver_error : String
  pub time : ℕ

pub record Allocation : Type 0 where
  pub id : String
  pub task_group : String
  pub task_states : Dict (List TaskEvent)
  pub job : Option Job
