-- ===== src/Tools.antt =====
-- tengen/tools: the parser of alerts, the reading of runbooks, and the delivery of findings.
pub mod AlertParser
pub mod Severities
pub mod Runbooks
pub mod Forwarding
mod Samples
