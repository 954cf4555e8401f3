-- ===== src/Broker.antt =====
-- broker/: the manager of the connectors, the workers, the loops of targets and sources, and the
-- running broker that they make up.
pub mod Manager
pub mod Target
pub mod Source
pub mod Worker
pub mod Pipeline
pub mod System
pub mod Sample
