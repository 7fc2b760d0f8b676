-- ===== src/Models.antt =====
-- tengen/models: the records that flow through the pipeline.
pub mod Alert
pub mod NormalizedEvent
pub mod Incident
pub mod Udm
pub mod Projection
mod Samples
