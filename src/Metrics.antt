-- ===== src/Metrics.antt =====
-- tengen/metrics and the part of tengen/dashboard that counts what the metrics say.
pub mod Store
pub mod Emitter
mod Samples
