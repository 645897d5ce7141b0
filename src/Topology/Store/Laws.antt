-- ===== src/Topology/Store/Laws.antt =====
-- apps/topology/src/topology-store.ts: what the operations of `TopologyStore` guarantee.
pub mod Liveness
pub mod Heartbeats
pub mod Accounting
pub mod Removal
