-- ===== src/Pipeline.antt =====
-- apps/demo-domain: the event pipeline. Its stages are separate services; the orchestrator connects
-- them.
pub mod Batching
pub mod Conservation
pub mod Sizes
pub mod Options
pub mod Single
pub mod Aggregation
pub mod Totals
pub mod Tests
