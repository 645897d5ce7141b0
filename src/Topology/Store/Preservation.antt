-- ===== src/Topology/Store/Preservation.antt =====
-- apps/topology/src/topology-store.ts: the invariant of `TopologyStore` under each operation.
pub mod Identity
pub mod Services
pub mod Removal
pub mod Loops
pub mod Sweeping
pub mod Flushing
pub mod Reports
pub use Identity.*
pub use Services.*
pub use Removal.*
pub use Loops.*
pub use Sweeping.*
pub use Flushing.*
pub use Reports.*
