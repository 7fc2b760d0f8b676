-- ===== src/Normalizers.antt =====
-- tools/normalizers: from a raw payload to a normalized event.
pub mod Reading
pub mod Building
pub mod Cloud
pub mod Endpoint
pub mod Traffic
pub mod Registry
pub mod Sources
pub mod Detection
pub mod Ids
mod Samples
pub mod Severities
