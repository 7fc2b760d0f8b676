-- ===== src/Enrichment.antt =====
-- tools/enrichment.py: the fields that are read off an alert, and the lookups of outside services.
pub mod Requests
pub mod Alerts
pub mod Reputation
pub mod Context
pub mod Names
mod Samples
