-- ===== src/Udm.antt =====
-- tengen/udm: discovery of fields that the unified data model does not cover, and their promotion.
pub mod Tables
pub mod Mappings
pub mod FieldRegistry
pub mod Parser
pub mod Updater
mod Samples
