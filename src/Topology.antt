-- ===== src/Topology.antt =====
-- The topology service: messages, the store, and the gRPC service around it.
pub mod Types
pub mod Store
pub mod Service
pub mod Arguments
pub mod Samples
pub mod Tests
