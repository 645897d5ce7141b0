-- ===== src/Topology/Store.antt =====
-- apps/topology/src/topology-store.ts, class `TopologyStore`. The children hold its state, the
-- operations by subject, and what is proved of them.
pub mod State
pub mod Services
pub mod Activity
pub mod Sweep
pub mod EdgeRules
pub mod WellFormed
pub mod Preservation
pub mod TargetKeys
pub mod Laws
